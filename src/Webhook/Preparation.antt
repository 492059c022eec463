-- ===== src/Webhook/Preparation.antt =====
-- pkg/webhook/v1alpha2/applicationconfiguration, PrepareForValidation of helper.go and Handle of
-- validating_handler.go: what the validators are given, and what is answered to a request that creates
-- or updates a configuration.
pub mod Admittance
pub mod Completed
pub mod Tests
use oam_kubernetes_runtime.Base.{
  GoString, codes, is_empty, not, Option, List, [], ◌∷◌, if◌then◌else◌, Result, ok, err, ◌>>=◌,
}
use oam_kubernetes_runtime.Api.{
  Component, ComponentTrait, TraitDefinition, WorkloadDefinition, ApplicationConfiguration,
  ApplicationConfigurationComponent,
}
use oam_kubernetes_runtime.Api.Value.{Fields}
use oam_kubernetes_runtime.Api.Fieldpath.{Got, found, missing, failed}
use oam_kubernetes_runtime.Util.Definitions.{
  DefinitionReader, fetch_trait_definition, fetch_workload_definition,
}
use oam_kubernetes_runtime.Render.Components.{Renderer, RenderError, get_component}
use oam_kubernetes_runtime.Webhook.Content.{ContentJson, Accessors}
use oam_kubernetes_runtime.Webhook.Validation.{
  ValidatingTrait, ValidatingComponent, ValidationError, handle_validators,
}

-- The errors of PrepareForValidation, each with the name of the component.
pub data PrepareError : Type 0 where
  get_component_error : RenderError → GoString → PrepareError
  unmarshal_workload unmarshal_trait : GoString → GoString → PrepareError
  get_workload_definition get_trait_definition : GoString → PrepareError

-- The answer to a request: admission.Denied, or admission.ValidationResponse(true, "").
pub data Response : Type 0 where
  unprepared : PrepareError → Response
  denied : List ValidationError → Response
  allowed : Response

unfoldable pub otherwise : {E A : Type 0} → (E → PrepareError) → Result E A → Result PrepareError A
otherwise f (ok a) = ok a
otherwise f (err e) = err (f e)

unfoldable pub definition_or : {A : Type 0} → PrepareError → Got A → Result PrepareError A
definition_or e (found a) = ok a
definition_or e missing = err e
definition_or e (failed _) = err e

abbrev pub comp_name_of : ApplicationConfigurationComponent → GoString
comp_name_of c = if not (is_empty c.component_name) then c.component_name else c.revision_name

module _ (r : Renderer) (d : DefinitionReader) (js : ContentJson) (acc : Accessors) where
  -- The round for a trait.
  unfoldable pub prepare_trait : GoString → ComponentTrait → Result PrepareError ValidatingTrait
  unfolding otherwise definition_or
  prepare_trait name t = otherwise (unmarshal_trait name) (js.unmarshal t.trait) >>= λ o.
      definition_or (get_trait_definition name) (fetch_trait_definition d (acc.view o))
      >>= λ definition. ok (record { trait_definition = definition; trait_content = acc.view o })

  unfoldable pub prepare_traits :
      GoString → List ComponentTrait → Result PrepareError (List ValidatingTrait)
  unfolding prepare_trait
  prepare_traits name [] = ok []
  prepare_traits name (t ∷ ts) =
      prepare_trait name t >>= λ v. prepare_traits name ts >>= λ rest. ok (v ∷ rest)

  -- The round for a component.
  unfoldable pub prepare_component :
      GoString → ApplicationConfigurationComponent → Result PrepareError ValidatingComponent
  unfolding prepare_traits
  prepare_component namespace c =
      let name = comp_name_of c in
      otherwise (λ e. get_component_error e name) (get_component r c namespace) >>= λ (comp, _).
      otherwise (unmarshal_workload name) (js.unmarshal comp.spec.workload) >>= λ o.
      definition_or (get_workload_definition name) (fetch_workload_definition d (acc.view o))
      >>= λ definition. prepare_traits name c.traits >>= λ traits. ok (record {
        comp_name = name;
        component_name = c.component_name;
        revision_name = c.revision_name;
        parameters = comp.spec.parameters;
        parameter_values = c.parameter_values;
        workload_definition = definition;
        workload_content = acc.view o;
        validating_traits = traits;
      })

  unfoldable pub prepare_components :
      GoString
      → List ApplicationConfigurationComponent
      → Result PrepareError (List ValidatingComponent)
  unfolding prepare_component
  prepare_components namespace [] = ok []
  prepare_components namespace (c ∷ cs) = prepare_component namespace c >>= λ v.
      prepare_components namespace cs >>= λ rest. ok (v ∷ rest)

  -- PrepareForValidation
  unfoldable pub prepare_for_validation :
      ApplicationConfiguration → Result PrepareError (List ValidatingComponent)
  unfolding prepare_components
  prepare_for_validation ac = prepare_components ac.metadata.namespace ac.components

  unfoldable pub response_of : List ValidationError → Response
  response_of [] = allowed
  response_of (e ∷ es) = denied (e ∷ es)

  -- Handle, for a decoded configuration that is not deleted
  unfoldable pub handle : (GoString → GoString) → ApplicationConfiguration → Response
  unfolding prepare_for_validation response_of
  handle parse_group ac = elim (prepare_for_validation ac) [
    | err e ↦ unprepared e
    | ok cs ↦ response_of (handle_validators parse_group cs)
  ]
