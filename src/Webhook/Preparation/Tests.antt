-- ===== src/Webhook/Preparation/Tests.antt =====
-- Admission of the configuration that the mutating webhook has completed.
use oam_kubernetes_runtime.Base.{
  codes, ◌==◌, false, [], List, All, ok, ok_inj, IsOk, ◌≡◌, ◌≢◌, ◌↔◌, refl, subst, inl,
}
use oam_kubernetes_runtime.Api.{ApplicationConfigurationComponent}
use oam_kubernetes_runtime.Api.Value.{Fields, null}
use oam_kubernetes_runtime.Api.Fieldpath.{found, missing}
use oam_kubernetes_runtime.Samples.{sample_trait_definition, sample_workload_definition}
use oam_kubernetes_runtime.Util.Definitions.{
  DefinitionReader, fetch_trait_definition, fetch_workload_definition,
}
use oam_kubernetes_runtime.Render.Components.{get_component}
use oam_kubernetes_runtime.Render.Components.Tests.{renderer}
use oam_kubernetes_runtime.Webhook.Content.{get_field}
use oam_kubernetes_runtime.Webhook.Samples.{plain, plain-Documented, two_texts, two_texts-RoundTrip}
use oam_kubernetes_runtime.Webhook.Validation.{ValidatingComponent, validate_trait_object}
use oam_kubernetes_runtime.Webhook.Validation.Admission.{Valid}
use oam_kubernetes_runtime.Webhook.Mutation.{trait_type_field}
use oam_kubernetes_runtime.Webhook.Mutation.Tests.{
  typed, written, definitions, definitions-NamesVersions, with_trait, mutated_lem,
}
use oam_kubernetes_runtime.Webhook.Preparation.{prepare_for_validation, allowed, handle}
use oam_kubernetes_runtime.Webhook.Preparation.Admittance.{handle-allowed}
use oam_kubernetes_runtime.Webhook.Preparation.Completed.{
  IsTypedTrait, validate_trait_object-mutate,
}

-- The definitions of each kind are found.
abbrev reader : DefinitionReader
reader = record {
  parse_group_version = λ s. ok (codes "oam.dev", codes "v1");
  rest_mapping = λ g k v. found (codes "scalers");
  definition_namespace = [];
  get_trait_definition = λ n. found (sample_trait_definition false []);
  get_workload_definition = λ n. found sample_workload_definition;
  get_scope_definition = λ n. missing;
}

read_typed : (o : Fields) → (two_texts typed written).unmarshal (codes "typed") ≡ ok o → typed ≡ o
unfolding ◌==◌
read_typed o h = ok_inj h

type_given : get_field trait_type_field typed ≢ null
unfolding get_field ◌==◌
type_given h = absurd cc

names_type :
    All
      (λ (c : ApplicationConfigurationComponent).
        All (IsTypedTrait (two_texts typed written) plain plain-Documented) c.traits)
      (with_trait (codes "typed")).components
names_type = (
  (
    λ o h.
        inl
          (subst (λ (x : Fields). get_field trait_type_field x ≢ null) (read_typed o h) type_given),
    tt,
  ),
  tt,
)

abbrev prepared : IsOk (
    prepare_for_validation renderer reader
      (two_texts typed written)
      plain
      (with_trait (codes "written")))
unfolding prepare_for_validation get_component ◌==◌ fetch_workload_definition fetch_trait_definition
prepared = (_, refl)

validate_trait_object-mutate_example : validate_trait_object prepared.0 ≡ []
validate_trait_object-mutate_example =
    validate_trait_object-mutate (two_texts typed written) plain plain-Documented renderer reader
      definitions (two_texts-RoundTrip typed written) definitions-NamesVersions
      (with_trait (codes "typed")) (with_trait (codes "written")) prepared.0 names_type mutated_lem
      prepared.1

handle-allowed_example :
    (handle renderer reader
        (two_texts typed written)
        plain
        (λ s. codes "apps")
        (with_trait (codes "written"))
      ≡ allowed)
    ↔ ((cs : List ValidatingComponent) × (prepare_for_validation renderer reader
            (two_texts typed written)
            plain
            (with_trait (codes "written"))
          ≡ ok cs)
        × All (Valid (λ s. codes "apps")) cs)
handle-allowed_example =
    handle-allowed renderer reader (two_texts typed written) plain (λ s. codes "apps")
      (with_trait (codes "written"))
