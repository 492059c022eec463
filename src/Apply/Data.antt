-- ===== src/Apply/Data.antt =====
-- apply.go, ApplyInputRef, ApplyOutputRef and operationProcess: data that a workload or a trait
-- passes on through a store object.
use oam_kubernetes_runtime.Base.{
  GoString, codes, ◌==◌, is_empty, Bool, not, ◌&&◌, ◌||◌, Option, none, some, List, [], ◌∷◌, is_nil,
  Map, if◌then◌else◌, Result, ok, err, ◌>>=◌,
}
use oam_kubernetes_runtime.Api.{
  TypedReference, DataOperation, StoreReference, DataOutput, DataInput,
}
use oam_kubernetes_runtime.Api.Value.{Value, Unstructured, object, end}
use oam_kubernetes_runtime.Api.Fieldpath.{Got, found, missing, failed, Fieldpath}
use oam_kubernetes_runtime.Apply.Patch.{
  DataError, Applied, Json, json_operation, get_error, apply_error, marshal_error, value_error,
  patch_error, unmarshal_workload, invaild_operation_type, invaild_operation_value_and_value_from,
  done, generation_unchanged, refused,
}

-- What a client does on the state W of the cluster, and SetOwnerReferences from another object.
pub record DataClient (W : Type 0) : Type 0 where
  pub get : W → GoString → GoString → GoString → GoString → Got Unstructured
  pub patching_apply : W → Unstructured → Applied W
  pub updating_apply : W → Unstructured → Applied W
  pub set_owners_of : Unstructured → Unstructured → Unstructured
  pub json : Json
  pub fieldpath : Fieldpath

or_error : {A : Type 0} → DataError → Option A → Result DataError A
or_error e none = err e
or_error e (some a) = ok a

-- getValueFromPath
get_value_from_path : Fieldpath → Unstructured → GoString → Result DataError Value
get_value_from_path fp u path = elim (fp.get_value u path) [
  | found v ↦ ok v
  | missing ↦ err value_error
  | failed _ ↦ err value_error
]

operation_value : Json → Fieldpath → Unstructured → DataOperation → Result DataError GoString
unfolding get_value_from_path or_error
operation_value j fp output oper =
    if not (is_empty oper.value)
    then ok oper.value
    else if not (is_empty oper.value_from)
    then (get_value_from_path fp output oper.value_from >>= λ v.
        or_error marshal_error (j.marshal_value v))
    else err invaild_operation_value_and_value_from

-- operationProcess: the input object afterwards.
unfoldable pub operation_process :
    Json → Fieldpath → Unstructured → Unstructured → DataOperation → Result DataError Unstructured
unfolding operation_value or_error
operation_process j fp input output oper =
    if oper.type == codes "jsonPatch"
    then (or_error marshal_error (j.marshal input) >>= λ json_bytes.
        operation_value j fp output oper >>= λ value.
        or_error patch_error (
          json_operation j (j.get_bytes json_bytes oper.to_field_path) oper.operator
            oper.to_data_path value oper.to_data_path)
        >>= λ target.
            or_error patch_error (
              json_operation j json_bytes (codes "replace") oper.to_field_path target
                oper.to_data_path)
            >>= λ patched. or_error unmarshal_workload (j.unmarshal patched input))
    else err invaild_operation_type

process_all :
    Json
    → Fieldpath
    → Unstructured
    → Unstructured
    → List DataOperation
    → Result DataError Unstructured
process_all j fp input output [] = ok input
process_all j fp input output (oper ∷ opers) =
    operation_process j fp input output oper >>= λ input'. process_all j fp input' output opers

is_zero_reference : TypedReference → Bool
is_zero_reference r = is_empty r.api_version && is_empty r.kind && is_empty r.name && is_empty r.uid

-- reflect.DeepEqual with the zero value
is_zero_store : StoreReference → Bool
unfolding is_zero_reference
is_zero_store s = is_zero_reference s.reference && is_nil s.operations

is_zero_output : DataOutput → Bool
unfolding is_zero_store
is_zero_output o =
    is_empty o.name && is_empty o.field_path && is_nil o.conditions && is_zero_store o.output_store

is_zero_input : DataInput → Bool
unfolding is_zero_store
is_zero_input i =
    is_empty i.value_from
    && is_nil i.to_field_paths
    && is_nil i.conditions
    && is_zero_store i.input_store

got : {A : Type 0} → Got A → Result DataError A
got (found a) = ok a
got missing = err get_error
got (failed _) = err get_error

module _ {W : Type 0} (cl : DataClient W) where
  -- ApplyInputRef: the object after the operations of every input.
  unfoldable pub apply_input_ref :
      W → Unstructured → List DataInput → GoString → Result DataError Unstructured
  unfolding is_zero_input is_zero_store got process_all
  apply_input_ref w u [] namespace = ok u
  apply_input_ref w u (input ∷ inputs) namespace =
      let store = input.input_store in
      let skipped = apply_input_ref w u inputs namespace in
      if is_zero_input input || is_zero_store store
      then skipped
      else (got (
            cl.get w store.reference.api_version store.reference.kind namespace
              store.reference.name)
          >>= λ ref. process_all cl.json cl.fieldpath u ref store.operations >>= λ u'.
              apply_input_ref w u' inputs namespace)

  applied : Applied W → Result DataError W
  applied (done w) = ok w
  applied (generation_unchanged w) = err apply_error
  applied refused = err apply_error

  new_store : Unstructured → StoreReference → GoString → Unstructured
  new_store running store namespace = cl.set_owners_of running (record {
    api_version = store.reference.api_version;
    kind = store.reference.kind;
    name = store.reference.name;
    namespace = namespace;
    uid = [];
    labels = none;
    annotations = none;
    content = object end;
  })

  -- The store object, created if it does not exist.
  get_store : W → Unstructured → StoreReference → GoString → Result DataError (Unstructured × W)
  unfolding got applied new_store
  get_store w running store namespace =
      let ref = store.reference in
      elim (cl.get w ref.api_version ref.kind namespace ref.name) [
        | found u ↦ ok (u, w)
        | failed _ ↦ err get_error
        | missing ↦
            (applied (cl.updating_apply w (new_store running store namespace)) >>= λ w'.
            got (cl.get w' ref.api_version ref.kind namespace ref.name) >>= λ u. ok (u, w'))
      ]

  output_step : W → Unstructured → DataOutput → GoString → Result DataError W
  unfolding got get_store applied process_all
  output_step w u output namespace =
      got (cl.get w u.api_version u.kind u.namespace u.name) >>= λ running.
      get_store w running output.output_store namespace >>= λ (ref, w').
      process_all cl.json cl.fieldpath ref running output.output_store.operations >>= λ ref'.
      applied (cl.updating_apply w' ref')

  -- ApplyOutputRef; the outputs are a map, whose order is that of the list.
  unfoldable pub apply_output_ref :
      W → Unstructured → Map DataOutput → GoString → Result DataError W
  unfolding is_zero_output is_zero_store output_step
  apply_output_ref w u [] namespace = ok w
  apply_output_ref w u ((_, output) ∷ outputs) namespace =
      let skipped = apply_output_ref w u outputs namespace in
      if is_zero_output output || is_zero_store output.output_store
      then skipped
      else (output_step w u output namespace >>= λ w'. apply_output_ref w' u outputs namespace)
