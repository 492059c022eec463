-- ===== src/Api.antt =====
-- apis/core/v1alpha2: the objects of the OAM API that the controllers and webhooks read and write,
-- with the Kubernetes metadata that the code uses of them. An int64 is its 64-bit pattern; a nil
-- map or pointer is `none`.
pub mod Value
pub mod Fieldpath
use oam_kubernetes_runtime.Base.{ℕ, GoString, Map, Bool, Option, List}

-- runtimev1alpha1.TypedReference
pub record TypedReference : Type 0 where
  pub api_version : GoString
  pub kind : GoString
  pub name : GoString
  pub uid : GoString

-- types.NamespacedName
pub record NamespacedName : Type 0 where
  pub namespace : GoString
  pub name : GoString

-- metav1.ObjectMeta, as far as the code reads it
pub record ObjectMeta : Type 0 where
  pub name : GoString
  pub namespace : GoString
  pub uid : GoString
  pub generation : ℕ
  pub deleting : Bool
  pub finalizers : List GoString
  pub labels : Option (Map GoString)
  pub annotations : Option (Map GoString)

-- intstr.IntOrString
pub data IntOrString : Type 0 where
  int_val : ℕ → IntOrString
  str_val : GoString → IntOrString

pub record ComponentParameter : Type 0 where
  pub name : GoString
  pub field_paths : List GoString
  pub required : Option Bool
  pub description : Option GoString

-- The workload is its raw JSON.
pub record ComponentSpec : Type 0 where
  pub workload : GoString
  pub parameters : List ComponentParameter

pub record Revision : Type 0 where
  pub name : GoString
  pub revision : ℕ

pub record ComponentStatus : Type 0 where
  pub observed_generation : ℕ
  pub latest_revision : Option Revision

pub record Component : Type 0 where
  pub metadata : ObjectMeta
  pub spec : ComponentSpec
  pub status : ComponentStatus

pub record ComponentParameterValue : Type 0 where
  pub name : GoString
  pub value : IntOrString

pub record ConditionRequirement : Type 0 where
  pub operator : GoString
  pub value : GoString
  pub value_from : GoString
  pub field_path : GoString

pub record DataOperation : Type 0 where
  pub type : GoString
  pub operator : GoString
  pub to_field_path : GoString
  pub to_data_path : GoString
  pub value : GoString
  pub value_from : GoString
  pub conditions : List ConditionRequirement

pub record StoreReference : Type 0 where
  pub reference : TypedReference
  pub operations : List DataOperation

pub record DataOutput : Type 0 where
  pub name : GoString
  pub field_path : GoString
  pub conditions : List ConditionRequirement
  pub output_store : StoreReference

pub record DataInput : Type 0 where
  pub value_from : GoString
  pub to_field_paths : List GoString
  pub conditions : List ConditionRequirement
  pub input_store : StoreReference

-- The trait is its raw JSON.
pub record ComponentTrait : Type 0 where
  pub trait : GoString
  pub data_outputs : List DataOutput
  pub data_inputs : List DataInput

pub record ComponentScope : Type 0 where
  pub scope_reference : TypedReference

pub record ApplicationConfigurationComponent : Type 0 where
  pub component_name : GoString
  pub revision_name : GoString
  pub data_outputs : List DataOutput
  pub data_inputs : List DataInput
  pub parameter_values : List ComponentParameterValue
  pub traits : List ComponentTrait
  pub scopes : List ComponentScope

pub record WorkloadTrait : Type 0 where
  pub status : GoString
  pub reference : TypedReference
  pub message : GoString

pub record WorkloadScope : Type 0 where
  pub status : GoString
  pub reference : TypedReference

pub record WorkloadStatus : Type 0 where
  pub status : GoString
  pub component_name : GoString
  pub component_revision_name : GoString
  pub reference : TypedReference
  pub traits : List WorkloadTrait
  pub scopes : List WorkloadScope

pub record HistoryWorkload : Type 0 where
  pub revision : GoString
  pub reference : TypedReference

pub record UnsatisfiedDependency : Type 0 where
  pub reason : GoString
  pub from : TypedReference
  pub from_field_path : GoString
  pub to : TypedReference
  pub to_field_paths : List GoString

-- The condition that a reconciliation sets, runtimev1alpha1.ReconcileSuccess or ReconcileError with the
-- text of an error.
pub data Condition : Type 0 where
  reconcile_success : Condition
  reconcile_error : GoString → Condition

-- `synced` is the condition of the type Synced.
pub record ApplicationConfigurationStatus : Type 0 where
  pub synced : Option Condition
  pub dependency : List UnsatisfiedDependency
  pub workloads : List WorkloadStatus
  pub observed_generation : ℕ
  pub history_workloads : List HistoryWorkload

pub record ApplicationConfiguration : Type 0 where
  pub metadata : ObjectMeta
  pub components : List ApplicationConfigurationComponent
  pub status : ApplicationConfigurationStatus

pub record DefinitionReference : Type 0 where
  pub name : GoString
  pub version : GoString

pub record TraitDefinition : Type 0 where
  pub name : GoString
  pub reference : DefinitionReference
  pub revision_enabled : Bool
  pub workload_ref_path : GoString
  pub applies_to_workloads : List GoString

pub record ScopeDefinition : Type 0 where
  pub name : GoString
  pub reference : DefinitionReference
  pub workload_refs_path : GoString

pub record ChildResourceKind : Type 0 where
  pub api_version : GoString
  pub kind : GoString
  pub selector : Map GoString

pub record WorkloadDefinition : Type 0 where
  pub name : GoString
  pub reference : DefinitionReference
  pub child_resource_kinds : List ChildResourceKind
