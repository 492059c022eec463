-- ===== src/Webhook/Mutation/Tests.antt =====
-- A configuration with a trait of the type "scaler", before and after its mutation.
use oam_kubernetes_runtime.Base.{
  GoString, codes, ◌==◌, is_empty, false, [], ◌∷◌, All, ok, ok_inj, ◌≡◌, refl, subst,
}
use oam_kubernetes_runtime.Api.{ApplicationConfiguration}
use oam_kubernetes_runtime.Api.Value.{str, Fields, end, field}
use oam_kubernetes_runtime.Samples.{sample_item, sample_configuration, sample_trait_definition}
use oam_kubernetes_runtime.Webhook.Content.{get_field, set_field, delete_field, group_version_text}
use oam_kubernetes_runtime.Webhook.Samples.{
  plain, plain-Documented, two_texts, two_texts-RoundTrip, two_texts-marshal,
}
use oam_kubernetes_runtime.Webhook.Mutation.{
  CustomResourceDefinition, DefinitionClient, move_properties, mutate,
}
use oam_kubernetes_runtime.Webhook.Mutation.Admitted.{NamesVersions}
use oam_kubernetes_runtime.Webhook.Mutation.Repeated.{ComponentsAdmitted, mutate-ComponentsAdmitted}

abbrev pub typed : Fields
typed =
    field (codes "name") (str (codes "scaler")) (field (codes "properties") (str (codes "3")) end)

abbrev pub written : Fields
written = field (codes "spec") (str (codes "3")) (
    field (codes "apiVersion") (str (codes "oam.dev/v1"))
      (field (codes "kind") (str (codes "Scaler")) end))

abbrev scaler : CustomResourceDefinition
scaler = record { group = codes "oam.dev"; versions = codes "v1" ∷ []; kind = codes "Scaler" }

abbrev pub definitions : DefinitionClient
definitions = record {
  get_trait_definition = λ _. ok (sample_trait_definition false []);
  get_crd = λ _. ok scaler;
}

pub definitions-NamesVersions : NamesVersions definitions
definitions-NamesVersions name crd h =
    subst
      (λ (x : CustomResourceDefinition).
        (is_empty x.kind ≡ false) × All (λ v. is_empty v ≡ false) x.versions)
      (ok_inj h) (refl, (refl, tt))

abbrev pub with_trait : GoString → ApplicationConfiguration
with_trait raw =
    sample_configuration
      (record (sample_item (codes "web") []) {
        traits = record { trait = raw; data_outputs = []; data_inputs = [] } ∷ [];
      }
        ∷ [])
      []

pub mutated_lem :
    mutate (two_texts typed written) plain definitions (with_trait (codes "typed"))
    ≡ ok (with_trait (codes "written"))
unfolding mutate move_properties get_field set_field delete_field group_version_text ◌==◌
mutated_lem = rw (two_texts-marshal typed written, mutate) refl

mutate-ComponentsAdmitted_example :
    (with_trait (codes "written") ≡ with_trait (codes "written"))
    × ComponentsAdmitted
        (two_texts typed written)
        plain
        (with_trait (codes "typed")).components
        (with_trait (codes "written")).components
    × (mutate (two_texts typed written) plain definitions (with_trait (codes "written"))
        ≡ ok (with_trait (codes "written")))
mutate-ComponentsAdmitted_example =
    mutate-ComponentsAdmitted (two_texts typed written) plain plain-Documented definitions
      (two_texts-RoundTrip typed written) definitions-NamesVersions (with_trait (codes "typed"))
      (with_trait (codes "written")) mutated_lem
