-- ===== src/Webhook/Component/Tests.antt =====
-- A component whose workload names the type "web", before and after its mutation.
use oam_kubernetes_runtime.Base.{
  GoString, codes, ◌==◌, false, List, [], ◌∷◌, Result, ok, All, ok_inj, ◌≡◌, refl, ap, subst,
  is_empty, ◌>>=◌,
}
use oam_kubernetes_runtime.Api.{ObjectMeta, Component}
use oam_kubernetes_runtime.Api.Value.{str, object, Fields, end, field}
use oam_kubernetes_runtime.Samples.{sample_component, sample_workload_definition}
use oam_kubernetes_runtime.Webhook.Content.{
  get_field, set_field, delete_field, group_version_text, GroupVersionKind,
}
use oam_kubernetes_runtime.Webhook.Samples.{
  plain, plain-Documented, two_texts, two_texts-RoundTrip, two_texts-marshal,
}
use oam_kubernetes_runtime.Webhook.Component.{
  type_field, WorkloadDefinitions, get_gvk_from_definition, mutate, ComponentError,
  validate_component_object,
}
use oam_kubernetes_runtime.Webhook.Component.Mutated.{NamesKinds, mutate-accepted}

abbrev typed : Fields
typed = field (codes "type") (str (codes "web")) end

abbrev deployment : GroupVersionKind
deployment = record { group = codes "apps"; version = codes "v1"; kind = codes "Deployment" }

abbrev definitions : WorkloadDefinitions
definitions = record {
  get_workload_definition = λ _. ok sample_workload_definition;
  kinds_for = λ _. ok (deployment ∷ []);
}

definitions-NamesKinds : NamesKinds definitions
definitions-NamesKinds ref gvks h =
    subst (All (λ (g : GroupVersionKind). (is_empty g.version ≡ false) × (is_empty g.kind ≡ false)))
      (ok_inj h) ((refl, refl), tt)

-- The content with the type's kind in the place of the type.
abbrev written : Fields
written = field (codes "apiVersion") (str (codes "apps/v1")) (
    field (codes "kind") (str (codes "Deployment")) (
      field (codes "metadata") (object (field (codes "namespace") (str (codes "default")) end))
        end))

abbrev mutated : Component
mutated = record (sample_component (codes "web")) {
  spec = record (sample_component (codes "web")).spec { workload = codes "written" };
}

mutated_lem :
    mutate (two_texts typed written) plain definitions (sample_component (codes "web")) ≡ ok mutated
unfolding mutate get_gvk_from_definition get_field set_field delete_field group_version_text ◌==◌
mutated_lem =
    ap
      (λ (r : Result GoString GoString). r >>= λ raw. ok (record (sample_component (codes "web")) {
        spec = record (sample_component (codes "web")).spec { workload = raw };
      }))
      (two_texts-marshal typed written)

parsed :
    (two_texts typed written).unmarshal (sample_component (codes "web")).spec.workload ≡ ok typed
unfolding ◌==◌
parsed = refl

names_type : get_field type_field typed ≡ str (codes "web")
unfolding get_field ◌==◌
names_type = refl

abbrev no_metadata_errors : ObjectMeta → List (ComponentError (two_texts typed written) plain)
no_metadata_errors _ = []

mutate-accepted_example :
    (validate_component_object (two_texts typed written) plain no_metadata_errors mutated ≡ [])
    × (mutate (two_texts typed written) plain definitions mutated ≡ ok mutated)
mutate-accepted_example =
    mutate-accepted (two_texts typed written) plain plain-Documented definitions
      (two_texts-RoundTrip typed written) definitions-NamesKinds (sample_component (codes "web"))
      mutated typed (codes "web") parsed names_type mutated_lem no_metadata_errors
