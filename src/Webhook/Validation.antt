-- ===== src/Webhook/Validation.antt =====
-- pkg/webhook/v1alpha2/applicationconfiguration, validating_handler.go and helper.go: the
-- validators of an application configuration. A component is what PrepareForValidation collects of
-- it; an error carries the values that stand in its text.
pub mod Parts
pub mod Admission
use oam_kubernetes_runtime.Base.{
  ℕ, GoString, codes, ◌==◌, is_empty, has_prefix, contains, Bool, true, false, not, ◌&&◌, ◌||◌,
  Option, none, some, List, [], ◌∷◌, ◌++◌, any, drop, is_nil, Map, insert, has_key, if◌then◌else◌,
}
use oam_kubernetes_runtime.Api.{
  IntOrString, int_val, str_val, ComponentParameter, ComponentParameterValue, TraitDefinition,
  WorkloadDefinition,
}
use oam_kubernetes_runtime.Api.Value.{Value, null, bool, number, str, slice, object, Unstructured}
use oam_kubernetes_runtime.Webhook.Content.{get_field, is_nil_value}

pub record ValidatingTrait : Type 0 where
  pub trait_definition : TraitDefinition
  pub trait_content : Unstructured

-- Of the component and its configuration: the names, the parameters and the values.
pub record ValidatingComponent : Type 0 where
  pub comp_name : GoString
  pub component_name : GoString
  pub revision_name : GoString
  pub parameters : List ComponentParameter
  pub parameter_values : List ComponentParameterValue
  pub workload_definition : WorkloadDefinition
  pub workload_content : Unstructured
  pub validating_traits : List ValidatingTrait

pub data ValidationError : Type 0 where
  trait_name trait_properties missing_gvk : ValidationError
  revision_name_error : GoString → GoString → ValidationError
  workload_name_not_empty : GoString → ValidationError
  unappliable_trait : GoString → GoString → GoString → List GoString → ValidationError

-- content[k] != nil
unfoldable pub content_not_nil : GoString → Value → Bool
content_not_nil k null = false
content_not_nil k (bool _) = false
content_not_nil k (number _) = false
content_not_nil k (str _) = false
content_not_nil k (slice _) = false
content_not_nil k (object o) = not (is_nil_value (get_field k o))

unfoldable pub trait_object_errors : List ValidatingTrait → List ValidationError
unfolding content_not_nil
trait_object_errors [] = []
trait_object_errors (tr ∷ trs) =
    let u = tr.trait_content in
    (if content_not_nil (codes "name") u.content then trait_name ∷ [] else [])
    ++ ((if content_not_nil (codes "properties") u.content then trait_properties ∷ [] else [])
        ++ ((if is_empty u.api_version || is_empty u.kind then missing_gvk ∷ [] else [])
            ++ trait_object_errors trs))

unfoldable pub validate_trait_object : List ValidatingComponent → List ValidationError
validate_trait_object [] = []
validate_trait_object (c ∷ cs) = trait_object_errors c.validating_traits ++ validate_trait_object cs

unfoldable pub validate_revision_name : List ValidatingComponent → List ValidationError
validate_revision_name [] = []
validate_revision_name (c ∷ cs) =
    let rest = validate_revision_name cs in
    if not (is_empty c.component_name) && not (is_empty c.revision_name)
    then revision_name_error c.component_name c.revision_name ∷ rest
    else rest

-- WorkloadNamePath
abbrev pub workload_name_path : GoString
workload_name_path = codes "metadata.name"

target_params : Map Bool → List ComponentParameter → Map Bool
target_params targets [] = targets
target_params targets (p ∷ cp) =
    target_params
      (if any (λ fp. contains fp workload_name_path) p.field_paths
        then insert p.name true targets
        else targets)
      cp

abbrev string_value : IntOrString → GoString
string_value (int_val _) = []
string_value (str_val s) = s

check_values : Map Bool → List ComponentParameterValue → Bool × GoString
check_values targets [] = (true, [])
check_values targets (v ∷ cpv) =
    if has_key v.name targets then (false, string_value v.value) else check_values targets cpv

-- checkParams: whether no value is for the workload's name, or else that value.
unfoldable pub check_params :
    List ComponentParameter → List ComponentParameterValue → Bool × GoString
unfolding target_params check_values
check_params cp cpv = check_values (target_params [] cp) cpv

abbrev pub is_version_enabled : List ValidatingTrait → Bool
is_version_enabled ts = any (λ t. t.trait_definition.revision_enabled) ts

unfoldable pub workload_name_errors : ValidatingComponent → List ValidationError
workload_name_errors c =
    let (ok, name) = check_params c.parameters c.parameter_values in
    (if not ok then workload_name_not_empty name ∷ [] else [])
    ++ (if not (is_empty c.workload_content.name)
        then workload_name_not_empty c.workload_content.name ∷ []
        else [])

unfoldable pub validate_workload_name_for_versioning :
    List ValidatingComponent → List ValidationError
validate_workload_name_for_versioning [] = []
validate_workload_name_for_versioning (c ∷ cs) =
    (if is_version_enabled c.validating_traits then workload_name_errors c else [])
    ++ validate_workload_name_for_versioning cs

first_errors : List (List ValidationError) → List ValidationError
first_errors [] = []
first_errors ([] ∷ rest) = first_errors rest
first_errors ((e ∷ es) ∷ rest) = e ∷ es

-- The Group of schema.ParseGroupResource is a parameter.
module _ (parse_group : GoString → GoString) where
  unfoldable pub applies : WorkloadDefinition → GoString → Bool
  applies wd apply_to =
      apply_to == codes "*"
      || has_prefix apply_to (codes "*.") && parse_group wd.reference.name == drop 2 apply_to
      || wd.reference.name == apply_to
      || wd.name == apply_to

  unfoldable pub is_appliable : WorkloadDefinition → TraitDefinition → Bool
  is_appliable wd td = is_nil td.applies_to_workloads || any (applies wd) td.applies_to_workloads

  unfoldable pub unappliable_traits :
      ValidatingComponent → List ValidatingTrait → List ValidationError
  unappliable_traits c [] = []
  unappliable_traits c (t ∷ ts) =
      let td = t.trait_definition in
      let rest = unappliable_traits c ts in
      if is_appliable c.workload_definition td
      then rest
      else unappliable_trait td.name c.workload_definition.name c.comp_name td.applies_to_workloads
        ∷ rest

  unfoldable pub validate_trait_appliable_to_workload :
      List ValidatingComponent → List ValidationError
  validate_trait_appliable_to_workload [] = []
  validate_trait_appliable_to_workload (c ∷ cs) =
      unappliable_traits c c.validating_traits ++ validate_trait_appliable_to_workload cs

  -- The loop of Handle over the registered validators: the errors of the first that has any.
  unfoldable pub handle_validators : List ValidatingComponent → List ValidationError
  unfolding first_errors
  handle_validators cs = first_errors (
      validate_trait_object cs
      ∷ validate_revision_name cs
      ∷ validate_workload_name_for_versioning cs
      ∷ validate_trait_appliable_to_workload cs
      ∷ [])
