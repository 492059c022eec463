-- ===== src/Render/Conditions.antt =====
-- render.go, getDataInput and what it calls: whether a data source is ready, and its value.
pub mod Ready
use oam_kubernetes_runtime.Base.{
  GoString, codes, ◌==◌, is_empty, Bool, true, false, not, is_nil, ◌&&◌, Option, none, some, List,
  [], ◌∷◌, ◌++◌, Result, ok, err, if◌then◌else◌,
}
use oam_kubernetes_runtime.Api.{ConditionRequirement}
use oam_kubernetes_runtime.Api.Value.{Value, null, str, Unstructured}
use oam_kubernetes_runtime.Api.Fieldpath.{
  Got, found, missing, failed, Fieldpath, ObjectReference, Reader,
}

abbrev pub condition_equal : GoString
condition_equal = codes "eq"

abbrev pub condition_not_equal : GoString
condition_not_equal = codes "notEq"

abbrev pub condition_not_empty : GoString
condition_not_empty = codes "notEmpty"

-- The switch on the operator: why the condition fails, if it does. Any other operator passes.
unfoldable pub check_operator : GoString → GoString → GoString → Option GoString
check_operator op expect val =
    if op == condition_equal
    then (if expect == val
        then none
        else some (codes "got(" ++ (val ++ (codes ") expected to be " ++ expect))))
    else if op == condition_not_equal
    then (if expect == val
        then some (codes "got(" ++ (val ++ (codes ") expected not to be " ++ expect)))
        else none)
    else if op == condition_not_empty
    then (if is_empty val then some (codes "value should not be empty") else none)
    else none

-- dagSource
pub record DagSource : Type 0 where
  pub object_ref : ObjectReference
  pub conditions : List ConditionRequirement

-- How getDataInput ends: ready with a value, not ready for a reason, or with an error.
pub data DataInputResult : Type 0 where
  ready : Value → DataInputResult
  waiting : GoString → DataInputResult
  failure : GoString → DataInputResult

-- Nothing is asked of the source.
abbrev pub is_trivial : DagSource → Bool
is_trivial s = is_empty s.object_ref.field_path && is_nil s.conditions

-- key.String() of the source's object
object_text : DagSource → GoString
object_text s = s.object_ref.namespace ++ (codes "/" ++ s.object_ref.name)

pub get_failed : DagSource → GoString
unfolding object_text
get_failed s = codes "failed to get object (" ++ (object_text s ++ codes ")")

pub field_failed : DagSource → GoString → GoString
unfolding object_text
field_failed s e =
    codes "failed to get field value ("
    ++ (s.object_ref.field_path ++ (codes ") in object (" ++ (object_text s ++ (codes "): " ++ e))))

module _ (fp : Fieldpath) where
  unfoldable pub get_check_val :
      ConditionRequirement → Unstructured → Option GoString → Result GoString GoString
  get_check_val m paved val =
      if not (is_empty m.field_path)
      then fp.get_string paved m.field_path
      else elim val [ some v ↦ ok v | none ↦ err (codes "FieldPath not specified") ]

  expect_from : Result GoString GoString → Result GoString GoString
  expect_from (ok v) = ok v
  expect_from (err e) = err (codes "get valueFrom.fieldPath fail: " ++ e)

  unfoldable pub get_expect_val : ConditionRequirement → Unstructured → Result GoString GoString
  unfolding expect_from
  get_expect_val m ac =
      if not (is_empty m.value)
      then ok m.value
      else if is_empty m.value_from
      then ok []
      else expect_from (fp.get_string ac m.value_from)

  -- One round of checkConditions: why the condition does not hold, if so.
  unfoldable pub check_condition :
      ConditionRequirement → Unstructured → Option GoString → Unstructured → Option GoString
  check_condition m paved val ac = elim (get_check_val m paved val) [
    | err e ↦ some (codes "can't get value to check " ++ e)
    | ok check ↦ elim (get_expect_val m ac) [
      | err e ↦ some e
      | ok expect ↦ check_operator m.operator expect check
    ]
  ]

  unfoldable pub check_conditions :
      List ConditionRequirement → Unstructured → Option GoString → Unstructured → Bool × GoString
  check_conditions [] paved val ac = (true, [])
  check_conditions (m ∷ conds) paved val ac = elim (check_condition m paved val ac) [
    | some reason ↦ (false, reason)
    | none ↦ check_conditions conds paved val ac
  ]

  unfoldable pub match_value :
      List ConditionRequirement → GoString → Unstructured → Unstructured → Bool × GoString
  match_value [] val paved ac =
      if is_empty val then (false, codes "value should not be empty") else (true, [])
  match_value (m ∷ conds) val paved ac = check_conditions (m ∷ conds) paved (some val) ac

  -- The switch on the type of the value.
  unfoldable pub match_raw :
      List ConditionRequirement → Value → Unstructured → Unstructured → Bool × GoString
  match_raw conds (str val) paved ac = match_value conds val paved ac
  match_raw conds raw paved ac = check_conditions conds paved none ac

  of_match : Value → Bool × GoString → DataInputResult
  of_match raw (true, reason) = ready raw
  of_match raw (false, reason) = waiting reason

  -- The end of getDataInput, on the object that was read.
  unfoldable pub read_source : DagSource → Unstructured → Unstructured → DataInputResult
  unfolding of_match
  read_source s u ac = elim (fp.get_value u s.object_ref.field_path) [
    | missing ↦ waiting (s.object_ref.field_path ++ codes " not found in object")
    | failed e ↦ failure (field_failed s e)
    | found raw ↦ of_match raw (match_raw s.conditions raw u ac)
  ]

  unfoldable pub get_data_input : Reader → DagSource → Unstructured → Bool → DataInputResult
  get_data_input client s ac ignore_not_found =
      if is_trivial s
      then ready null
      else elim (client.get s.object_ref.api_version s.object_ref.kind s.object_ref.namespace
          s.object_ref.name) [
            | missing ↦ if ignore_not_found then ready null else waiting (get_failed s)
            | failed e ↦ failure (get_failed s ++ (codes ": " ++ e))
            | found u ↦ read_source s u ac
          ]
