-- ===== src/Render/Dependency.antt =====
-- render.go and dag.go: data passing between the objects of an application configuration. A data
-- input is filled from its source once that is ready; until then its object waits.
pub mod Waiting
use oam_kubernetes_runtime.Base.{
  GoString, codes, is_empty, all, nat_eq, Bool, true, false, not, ◌&&◌, ◌||◌, is_nil, Option, none,
  some, List, [], ◌∷◌, ◌++◌, Map, lookup, insert, if◌then◌else◌, Result, ok, err, ◌>>=◌,
}
use oam_kubernetes_runtime.Api.{
  TypedReference, StoreReference, DataOperation, DataInput, DataOutput, UnsatisfiedDependency,
  ConditionRequirement, ComponentTrait, ApplicationConfigurationComponent,
}
use oam_kubernetes_runtime.Api.Value.{
  Value, null, bool, number, str, slice, object, Values, nil, append, Unstructured,
}
use oam_kubernetes_runtime.Api.Fieldpath.{
  Got, found, missing, failed, Fault, error, panic, Fieldpath, ObjectReference, Reader,
}
use oam_kubernetes_runtime.Workload.{Workload, Trait}
use oam_kubernetes_runtime.Render.Conditions.{
  DagSource, DataInputResult, ready, waiting, failure, get_data_input,
}

-- dag.Sources
abbrev pub Dag : Type 0
Dag = Map DagSource

-- AddSource
unfoldable pub add_source : Dag → GoString → ObjectReference → List ConditionRequirement → Dag
add_source dag name ref conds = insert name (record { object_ref = ref; conditions = conds }) dag

unfoldable pub add_data_outputs_to_dag : Dag → List DataOutput → Unstructured → Dag
unfolding add_source
add_data_outputs_to_dag dag [] obj = dag
add_data_outputs_to_dag dag (out ∷ outs) obj =
    add_data_outputs_to_dag (add_source dag out.name ref out.conditions) outs obj
  where
    ref : ObjectReference
    ref = record {
      api_version = obj.api_version;
      kind = obj.kind;
      name = obj.name;
      namespace = obj.namespace;
      field_path = out.field_path;
    }

unfoldable pub make_unsatisfied_dependency :
    TypedReference → DagSource → List GoString → GoString → UnsatisfiedDependency
make_unsatisfied_dependency obj s to_paths reason = record {
  reason = reason;
  from = record { api_version = ref.api_version; kind = ref.kind; name = ref.name; uid = [] };
  from_field_path = ref.field_path;
  to = record { api_version = obj.api_version; kind = obj.kind; name = obj.name; uid = [] };
  to_field_paths = to_paths;
}
  where
    open s use {object_ref as ref}

abbrev pub type_of : Unstructured → TypedReference
type_of u = record { api_version = u.api_version; kind = u.kind; name = u.name; uid = [] }

-- reflect.DeepEqual(store, StoreReference{}); a list of no operations counts as nil.
unfoldable pub is_no_store : StoreReference → Bool
is_no_store s =
    is_empty s.reference.api_version
    && is_empty s.reference.kind
    && is_empty s.reference.name
    && is_empty s.reference.uid
    && is_nil s.operations

-- strings.TrimSpace(name) == "", for ASCII.
unfoldable pub is_blank : GoString → Bool
is_blank s =
    all (λ c. nat_eq c 9 || nat_eq c 10 || nat_eq c 11 || nat_eq c 12 || nat_eq c 13 || nat_eq c 32)
      s

to_path : DataOperation → GoString
to_path oper =
    if is_empty oper.to_data_path
    then oper.to_field_path
    else oper.to_field_path ++ (codes "(" ++ (oper.to_data_path ++ codes ")"))

-- One round of an input: the object as it is then, or what it waits for, or an error.
pub data Stage : Type 0 where
  pass : Unstructured → Stage
  unmet : Unstructured → UnsatisfiedDependency → Stage
  broken : Fault → Stage

abbrev pub and_then : Stage → (Unstructured → Stage) → Stage
and_then (pass obj) f = f obj
and_then (unmet obj d) f = unmet obj d
and_then (broken e) f = broken e

missing_output : GoString → Fault
missing_output name =
    error (codes "DataOutputName (" ++ (name ++ codes "): DataOutput does not exist"))

get_failure : GoString → Fault
get_failure e = error (codes "getDataInput failed: " ++ e)

module _ (fp : Fieldpath) (client : Reader) (ac : Unstructured) where
  -- The source that an operation of a store reads.
  unfoldable pub store_source : GoString → GoString → GoString → DataOperation → DagSource
  store_source api_version kind name oper = record {
    object_ref = record {
      api_version = api_version;
      kind = kind;
      name = name;
      namespace = ac.namespace;
      field_path = oper.value_from;
    };
    conditions = oper.conditions;
  }

  -- The loop over the operations of an output: what they wait for, and whether all are ready. An
  -- error of a read leaves no record.
  unfoldable pub check_operations :
      DataOutput → DagSource → List DataOperation → List UnsatisfiedDependency × Bool
  unfolding to_path
  check_operations out s [] = ([], true)
  check_operations out s (oper ∷ opers) = elim (get_data_input fp client (source oper) ac false) [
    | ready v ↦ check_operations out s opers
    | failure e ↦ ([], false)
    | waiting reason ↦ (
      make_unsatisfied_dependency out.output_store.reference (source oper) (to_path oper ∷ [])
            reason
          ∷ [],
      false,
    )
  ]
    where
      source : DataOperation → DagSource
      source = store_source s.object_ref.api_version s.object_ref.kind s.object_ref.name

  unfoldable pub handle_data_output :
      Dag → List DataOutput → Map DataOutput → List UnsatisfiedDependency × Map DataOutput
  handle_data_output dag [] outputs = ([], outputs)
  handle_data_output dag (out ∷ outs) outputs =
      let skipped = handle_data_output dag outs outputs in
      if is_no_store out.output_store then skipped else elim (lookup out.name dag) [
        | none ↦ skipped
        | some s ↦
            let (uds, complete) = check_operations out s out.output_store.operations in
            let (more, outputs') =
              handle_data_output dag outs
                (if complete then insert out.name out outputs else outputs) in
            (uds ++ more, outputs')
      ]

  -- What fillValue sets at a path: a slice is appended to the slice there.
  to_set : Unstructured → GoString → Value → Result Fault Value
  to_set obj path (slice l) = elim (fp.get_value obj path) [
    | missing ↦ ok (slice (append nil l))
    | failed e ↦ err (error e)
    | found raw ↦ elim raw [ slice m ↦ ok (slice (append m l)) | _ ↦ err panic ]
  ]
  to_set obj path v = ok v

  set_at : Unstructured → GoString → Value → Result Fault Unstructured
  set_at obj path v = elim (fp.set_value obj path v) [
    | ok obj' ↦ ok obj'
    | err e ↦ err (error (codes "paved.SetValue() failed: " ++ e))
  ]

  unfoldable pub fill_value : Unstructured → List GoString → Value → Result Fault Unstructured
  unfolding to_set set_at
  fill_value obj [] v = ok obj
  fill_value obj (path ∷ paths) v = do
    w ← to_set obj path v
    obj' ← set_at obj path w
    fill_value obj' paths v

  wrap_fill : Fault → Fault
  wrap_fill (error e) = error (codes "fillValue failed: " ++ e)
  wrap_fill panic = panic

  filled : Result Fault Unstructured → Stage
  filled (ok obj) = pass obj
  filled (err e) = broken (wrap_fill e)

  -- handleDataOutputConds
  unfoldable pub handle_data_output_conds : Dag → DataInput → Unstructured → Stage
  unfolding missing_output get_failure filled wrap_fill
  handle_data_output_conds dag input obj = elim (lookup input.value_from dag) [
    | none ↦ broken (missing_output input.value_from)
    | some s ↦ elim (get_data_input fp client s ac false) [
      | failure e ↦ broken (get_failure e)
      | waiting reason ↦
          unmet obj (make_unsatisfied_dependency (type_of obj) s input.to_field_paths reason)
      | ready v ↦ filled (fill_value obj input.to_field_paths v)
    ]
  ]

  -- The loop of handleDataStoreConds
  unfoldable pub handle_data_store_conds :
      TypedReference → List DataOperation → Unstructured → Stage
  unfolding get_failure to_path
  handle_data_store_conds store [] obj = pass obj
  handle_data_store_conds store (oper ∷ opers) obj =
      elim (get_data_input fp client (source oper) ac false) [
        | failure e ↦ broken (get_failure e)
        | waiting reason ↦
            unmet obj
              (make_unsatisfied_dependency (type_of obj) (source oper) (to_path oper ∷ []) reason)
        | ready v ↦ handle_data_store_conds store opers obj
      ]
    where
      source : DataOperation → DagSource
      source = store_source store.api_version store.kind store.name

  -- handleDataInputConds: the conditions are on the object itself, if it exists already.
  unfoldable pub handle_data_input_conds : Dag → DataInput → Unstructured → Stage
  unfolding missing_output get_failure
  handle_data_input_conds dag input obj = elim (lookup input.value_from dag) [
    | none ↦ broken (missing_output input.value_from)
    | some s ↦ elim (get_data_input fp client itself ac true) [
      | failure e ↦ broken (get_failure e)
      | waiting reason ↦ unmet obj (
          make_unsatisfied_dependency (type_of obj) s input.to_field_paths
            (codes "DataInputs Conditions: " ++ reason))
      | ready v ↦ pass obj
    ]
  ]
    where
      itself : DagSource
      itself = record {
        object_ref = record {
          api_version = obj.api_version;
          kind = obj.kind;
          name = obj.name;
          namespace = ac.namespace;
          field_path = [];
        };
        conditions = input.conditions;
      }

  -- The three parts of one round of handleDataInput.
  abbrev pub named_stage : Dag → DataInput → Unstructured → Stage
  named_stage dag input obj =
      if is_blank input.value_from then pass obj else handle_data_output_conds dag input obj

  abbrev pub stored_stage : DataInput → Unstructured → Stage
  stored_stage input obj =
      if is_no_store input.input_store
      then pass obj
      else handle_data_store_conds input.input_store.reference input.input_store.operations obj

  abbrev pub own_stage : Dag → DataInput → Unstructured → Stage
  own_stage dag input obj =
      if is_nil input.conditions then pass obj else handle_data_input_conds dag input obj

  unfoldable pub check_input : Dag → DataInput → Unstructured → Stage
  check_input dag input obj =
      and_then (and_then (named_stage dag input obj) (stored_stage input)) (own_stage dag input)

  unfoldable pub handle_data_input :
      Dag → List DataInput → Unstructured → Result Fault (List UnsatisfiedDependency × Unstructured)
  handle_data_input dag [] obj = ok ([], obj)
  handle_data_input dag (input ∷ inputs) obj = elim (check_input dag input obj) [
    | pass obj' ↦ handle_data_input dag inputs obj'
    | unmet obj' d ↦ ok (d ∷ [], obj')
    | broken e ↦ err e
  ]

  unfoldable pub trait_dependency :
      Dag → ComponentTrait → Trait → Result Fault (List UnsatisfiedDependency × Trait)
  trait_dependency dag ct trait = do
    let (out_uds, outputs) = handle_data_output dag ct.data_outputs []
    (in_uds, obj) ← handle_data_input dag ct.data_inputs trait.object
    ok (
      out_uds ++ in_uds,
      record trait {
        object = obj;
        data_outputs = outputs;
        has_dep = if is_nil in_uds then trait.has_dep else true;
        data_inputs = if is_nil in_uds then ct.data_inputs else trait.data_inputs;
      },
    )

  -- The loop over acc.Traits, whose i-th trait is w.Traits[i]: one too few would be out of range.
  unfoldable pub traits_dependency :
      Dag
      → List ComponentTrait
      → List Trait
      → Result Fault (List UnsatisfiedDependency × List Trait)
  traits_dependency dag [] traits = ok ([], traits)
  traits_dependency dag (ct ∷ cts) [] = err panic
  traits_dependency dag (ct ∷ cts) (trait ∷ traits) = do
    (uds, trait') ← trait_dependency dag ct trait
    (more, traits') ← traits_dependency dag cts traits
    ok (uds ++ more, trait' ∷ traits')

  -- handleDependency; the conversion of the configuration to `ac` is the caller's.
  unfoldable pub handle_dependency :
      Workload
      → ApplicationConfigurationComponent
      → Dag
      → Result Fault (List UnsatisfiedDependency × Workload)
  handle_dependency w acc dag = do
    let (out_uds, outputs) = handle_data_output dag acc.data_outputs []
    (in_uds, obj) ← handle_data_input dag acc.data_inputs w.workload
    (trait_uds, traits) ← traits_dependency dag acc.traits w.traits
    ok (
      out_uds ++ (in_uds ++ trait_uds),
      record w {
        workload = obj;
        data_outputs = outputs;
        has_dep = if is_nil in_uds then w.has_dep else true;
        data_inputs = if is_nil in_uds then acc.data_inputs else w.data_inputs;
        traits = traits;
      },
    )
