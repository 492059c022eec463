-- ===== src/Api/Fieldpath.antt =====
-- What the controllers use of crossplane-runtime's fieldpath package and of the Kubernetes client:
-- parameters of the model.
use oam_kubernetes_runtime.Base.{GoString, Result}
use oam_kubernetes_runtime.Api.Value.{Value, Unstructured}

-- How a read ends: `missing` is what IsNotFound recognises.
pub data Got (A : Type 0) : Type 0 where
  found : A → Got A
  missing : Got A
  failed : GoString → Got A

-- How an operation fails: with an error value, or with a panic of the goroutine.
pub data Fault : Type 0 where
  error : GoString → Fault
  panic : Fault

-- fieldpath.Pave(u).GetValue, GetString and SetValue
pub record Fieldpath : Type 0 where
  pub get_value : Unstructured → GoString → Got Value
  pub get_string : Unstructured → GoString → Result GoString GoString
  pub set_value : Unstructured → GoString → Value → Result GoString Unstructured

-- corev1.ObjectReference, as far as it is used
pub record ObjectReference : Type 0 where
  pub api_version : GoString
  pub kind : GoString
  pub name : GoString
  pub namespace : GoString
  pub field_path : GoString

-- client.Reader.Get of an object given by its API version, kind, namespace and name
pub record Reader : Type 0 where
  pub get : GoString → GoString → GoString → GoString → Got Unstructured
