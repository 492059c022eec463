-- ===== src/Webhook/Preparation/Admittance.antt =====
-- validating_handler.go, Handle: which configurations are admitted.
use oam_kubernetes_runtime.Base.{
  GoString, List, [], ◌∷◌, All, ok, ok_inj, Result-cases, ◌≡◌, ◌↔◌, refl, sym, ◌∙◌, subst, inl, inr,
}
use oam_kubernetes_runtime.Api.{ApplicationConfiguration}
use oam_kubernetes_runtime.Util.Definitions.{DefinitionReader}
use oam_kubernetes_runtime.Render.Components.{Renderer}
use oam_kubernetes_runtime.Webhook.Content.{ContentJson, Accessors}
use oam_kubernetes_runtime.Webhook.Validation.{
  ValidatingComponent, ValidationError, handle_validators,
}
use oam_kubernetes_runtime.Webhook.Validation.Admission.{Valid, handle_validators-Valid}
use oam_kubernetes_runtime.Webhook.Preparation.{
  allowed, response_of, prepare_for_validation, handle,
}

module _ (r : Renderer) (d : DefinitionReader) (js : ContentJson) (acc : Accessors) where
  response_of-allowed :
      (es : List ValidationError) → (response_of r d js acc es ≡ allowed) ↔ (es ≡ [])
  unfolding response_of
  response_of-allowed [] = (λ h. refl, λ h. refl)
  response_of-allowed (e ∷ es) = (λ h. absurd cc, λ h. absurd cc)

  -- A configuration that is created or updated is admitted exactly if its components, their workloads and
  -- traits and the definitions of these can all be read, and each component is valid: its traits are
  -- objects with a type and apply to its workload, it is named by a component or a revision and not
  -- both, and if it is versioned neither its workload nor a parameter value sets a name.
  pub handle-allowed :
      (parse_group : GoString → GoString) (ac : ApplicationConfiguration)
      → (handle r d js acc parse_group ac ≡ allowed) ↔ (
          (cs : List ValidatingComponent) × (prepare_for_validation r d js acc ac ≡ ok cs)
          × All (Valid parse_group) cs)
  unfolding handle
  handle-allowed parse_group ac = elim (Result-cases (prepare_for_validation r d js acc ac)) [
    | inl (cs, e) ↦
        let valid = handle_validators-Valid parse_group cs in
        let answer = response_of-allowed (handle_validators parse_group cs) in
        (
          λ h. (cs, e, valid.0 (answer.0 (rw (e, handle) at h))),
          λ (cs', e', v).
              rw (e, handle)
                (answer.1 (valid.1 (subst (All (Valid parse_group)) (ok_inj (sym e' ∙ e)) v))),
        )
    | inr (x, e) ↦ (λ h. absurd (let g = rw (e, handle) at h in cc), λ (cs', e', v). absurd cc)
  ]
