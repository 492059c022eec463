-- ===== src/Webhook/Component.antt =====
-- pkg/webhook/v1alpha2/component, mutating_handler.go and validating_handler.go: a workload that names
-- its WorkloadDefinition becomes an object of the definition's kind; and what is accepted. With
-- GetGVKFromDefinition of pkg/oam/util/helper.go.
pub mod Mutated
pub mod Tests
use oam_kubernetes_runtime.Base.{
  GoString, codes, is_empty, Bool, true, false, not, ◌||◌, Option, none, some, List, [], ◌∷◌, ◌++◌,
  if◌then◌else◌, Result, ok, err, ◌>>=◌,
}
use oam_kubernetes_runtime.Api.{ObjectMeta, Component, DefinitionReference, WorkloadDefinition}
use oam_kubernetes_runtime.Api.Value.{
  Value, null, bool, number, str, slice, object, Fields, Unstructured,
}
use oam_kubernetes_runtime.Util.{workload_type_label, merge_map_override_with_dst}
use oam_kubernetes_runtime.Webhook.Content.{
  get_field, delete_field, is_nil_value, Accessors, ContentJson, GroupVersionKind,
  group_version_text,
}

abbrev pub type_field : GoString
type_field = codes "type"

-- The client's WorkloadDefinitions by name, and the kinds that the mapper finds for the group,
-- resource and version of a reference.
pub record WorkloadDefinitions : Type 0 where
  pub get_workload_definition : GoString → Result GoString WorkloadDefinition
  pub kinds_for : DefinitionReference → Result GoString (List GroupVersionKind)

-- NoResourceMatchError
unfoldable pub first_kind :
    DefinitionReference → List GroupVersionKind → Result GoString GroupVersionKind
first_kind ref [] = err (codes "no matches for " ++ ref.name)
first_kind ref (gvk ∷ gvks) = ok gvk

-- GetGVKFromDefinition
unfoldable pub get_gvk_from_definition :
    WorkloadDefinitions → DefinitionReference → Result GoString GroupVersionKind
unfolding first_kind
get_gvk_from_definition defs ref = defs.kinds_for ref >>= λ gvks. first_kind ref gvks

module _ (js : ContentJson) (acc : Accessors) where
  module _ (defs : WorkloadDefinitions) where
    -- The content of the workload, of a type whose kind was found.
    unfoldable pub typed_content : Component → GoString → GroupVersionKind → Fields → Fields
    typed_content c workload_type gvk o = acc.set_annotations c.metadata.annotations (
        acc.set_labels
          (merge_map_override_with_dst c.metadata.labels
            (some ((workload_type_label, workload_type) ∷ [])))
          (acc.set_namespace c.metadata.namespace (
            acc.set_kind gvk.kind (
              acc.set_api_version (group_version_text gvk.group gvk.version)
                (delete_field type_field o)))))

    unfoldable pub mutate_typed : Component → GoString → Fields → Result GoString Component
    unfolding typed_content
    mutate_typed c workload_type o = defs.get_workload_definition workload_type >>= λ definition.
        get_gvk_from_definition defs definition.reference >>= λ gvk.
        js.marshal (typed_content c workload_type gvk o) >>= λ raw.
        ok (record c { spec = record c.spec { workload = raw } })

    mutate_value : Component → Value → Fields → Result GoString Component
    unfolding mutate_typed
    mutate_value c null o = ok c
    mutate_value c (str workload_type) o = mutate_typed c workload_type o
    mutate_value c (bool _) o = err (codes "workload content has an unknown type field")
    mutate_value c (number _) o = err (codes "workload content has an unknown type field")
    mutate_value c (slice _) o = err (codes "workload content has an unknown type field")
    mutate_value c (object _) o = err (codes "workload content has an unknown type field")

    -- Mutate
    unfoldable pub mutate : Component → Result GoString Component
    unfolding mutate_value
    mutate c = js.unmarshal c.spec.workload >>= λ o. mutate_value c (get_field type_field o) o

  -- The errors of ValidateObjectMeta, which is a library's, and those of the workload.
  pub data ComponentError : Type 0 where
    metadata_error : GoString → ComponentError
    malformed has_type missing_gvk : ComponentError

  workload_errors : Result GoString Fields → List ComponentError
  workload_errors (err e) = malformed ∷ []
  workload_errors (ok o) =
      (if not (is_nil_value (get_field type_field o)) then has_type ∷ [] else [])
      ++ (if is_empty (acc.view o).api_version || is_empty (acc.view o).kind
          then missing_gvk ∷ []
          else [])

  -- ValidateComponentObject, after the errors of the metadata.
  unfoldable pub validate_component_object :
      (ObjectMeta → List ComponentError) → Component → List ComponentError
  unfolding workload_errors
  validate_component_object validate_object_meta c =
      validate_object_meta c.metadata ++ workload_errors (js.unmarshal c.spec.workload)
