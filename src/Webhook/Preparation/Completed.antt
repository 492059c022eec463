-- ===== src/Webhook/Preparation/Completed.antt =====
-- mutating_handler.go and validating_handler.go together: what the first webhook completes passes the
-- second one's check of trait objects.
use oam_kubernetes_runtime.Base.{
  GoString, List, [], ◌∷◌, All, Result, ok, err, >>=-eq-ok, ok_inj, ◌≡◌, ◌≢◌, ◌⊎◌, refl, sym, ap,
  ◌∙◌, subst, inl, inr,
}
use oam_kubernetes_runtime.Api.{
  ComponentTrait, TraitDefinition, ApplicationConfiguration, ApplicationConfigurationComponent,
}
use oam_kubernetes_runtime.Api.Value.{Fields, null}
use oam_kubernetes_runtime.Util.Definitions.{
  DefinitionReader, fetch_trait_definition, fetch_workload_definition,
}
use oam_kubernetes_runtime.Render.Components.{Renderer, get_component}
use oam_kubernetes_runtime.Webhook.Content.{
  get_field, ContentJson, Accessors, Documented, RoundTrip,
}
use oam_kubernetes_runtime.Webhook.Validation.{
  ValidatingTrait, ValidatingComponent, trait_object_errors, validate_trait_object,
}
use oam_kubernetes_runtime.Webhook.Mutation.{DefinitionClient, trait_type_field, mutate}
use oam_kubernetes_runtime.Webhook.Mutation.Admitted.{NamesVersions, IsObject}
use oam_kubernetes_runtime.Webhook.Mutation.Repeated.{
  IsAdmitted, TraitsAdmitted, ComponentsAdmitted, mutate-ComponentsAdmitted,
}
use oam_kubernetes_runtime.Webhook.Preparation.{
  PrepareError, otherwise, definition_or, comp_name_of, unmarshal_trait, unmarshal_workload,
  get_component_error, get_trait_definition, get_workload_definition, prepare_trait, prepare_traits,
  prepare_component, prepare_components, prepare_for_validation,
}

otherwise-ok :
    {E A : Type 0} (f : E → PrepareError) (q : Result E A) (a : A) → otherwise f q ≡ ok a → q ≡ ok a
unfolding otherwise
otherwise-ok f (ok x) a h = cc
otherwise-ok f (err e) a h = cc

module _ (js : ContentJson) (acc : Accessors) (documented : Documented acc) where
  -- A trait that says what it is: by the name of its type, or as a complete object.
  abbrev pub IsTypedTrait : ComponentTrait → Type 0
  IsTypedTrait t =
      (o : Fields)
      → js.unmarshal t.trait ≡ ok o
      → (get_field trait_type_field o ≢ null) ⊎ IsObject acc o

  -- A trait whose content the validator accepts.
  abbrev IsComplete : ComponentTrait → Type 0
  IsComplete t = (o : Fields) → js.unmarshal t.trait ≡ ok o → IsObject acc o

  IsAdmitted-IsComplete :
      (t t' : ComponentTrait) → IsTypedTrait t → IsAdmitted js acc t t' → IsComplete t'
  IsAdmitted-IsComplete t t' typed (o, read, inl (untyped, same)) o₁ read₁ = elim (typed o read) [
    | inl bad ↦ absurd (bad untyped)
    | inr object ↦
        subst (IsObject acc)
          (ok_inj
            (sym read ∙ (ap (λ (x : ComponentTrait). js.unmarshal x.trait) (sym same) ∙ read₁)))
          object
  ]
  IsAdmitted-IsComplete t t' typed (o, read, inr (type, named, same, o', read', object, errors)) o₁
        read₁ =
      subst (IsObject acc) (ok_inj (sym read' ∙ read₁)) object

  TraitsAdmitted-IsComplete :
      (ts ts' : List ComponentTrait)
      → All IsTypedTrait ts
      → TraitsAdmitted js acc ts ts'
      → All IsComplete ts'
  TraitsAdmitted-IsComplete [] [] typed h = tt
  TraitsAdmitted-IsComplete [] (t' ∷ ts') typed h = absurd h
  TraitsAdmitted-IsComplete (t ∷ ts) [] typed h = absurd h
  TraitsAdmitted-IsComplete (t ∷ ts) (t' ∷ ts') typed h =
      (IsAdmitted-IsComplete t t' typed.0 h.0, TraitsAdmitted-IsComplete ts ts' typed.1 h.1)

  ComponentsAdmitted-IsComplete :
      (cs cs' : List ApplicationConfigurationComponent)
      → All (λ c. All IsTypedTrait c.traits) cs
      → ComponentsAdmitted js acc cs cs'
      → All (λ c. All IsComplete c.traits) cs'
  ComponentsAdmitted-IsComplete [] [] typed h = tt
  ComponentsAdmitted-IsComplete [] (c' ∷ cs') typed h = absurd h
  ComponentsAdmitted-IsComplete (c ∷ cs) [] typed h = absurd h
  ComponentsAdmitted-IsComplete (c ∷ cs) (c' ∷ cs') typed h = (
    TraitsAdmitted-IsComplete c.traits c'.traits typed.0 h.1,
    ComponentsAdmitted-IsComplete cs cs' typed.1 h.2,
  )

  module _ (r : Renderer) (d : DefinitionReader) where
    add_trait :
        (definition : TraitDefinition) (o : Fields) (vs : List ValidatingTrait)
        → IsObject acc o
        → trait_object_errors vs ≡ []
        → trait_object_errors
            (record { trait_definition = definition; trait_content = acc.view o } ∷ vs)
          ≡ []
    unfolding trait_object_errors
    add_trait definition o vs t h = rw (documented.content-view o, t.0, t.1, t.2, t.3) h

    prepare_traits-errors :
        (name : GoString) (ts : List ComponentTrait) (vs : List ValidatingTrait)
        → All IsComplete ts
        → prepare_traits r d js acc name ts ≡ ok vs
        → trait_object_errors vs ≡ []
    unfolding prepare_traits prepare_trait trait_object_errors
    prepare_traits-errors name [] vs complete h =
        subst (λ (x : List ValidatingTrait). trait_object_errors x ≡ []) (ok_inj h) refl
    prepare_traits-errors name (t ∷ ts) vs complete h =
        let (v, made, h₁) = >>=-eq-ok (prepare_trait r d js acc name t) _ h in
        let (rest, later, h₂) = >>=-eq-ok (prepare_traits r d js acc name ts) _ h₁ in
        let (o, read, h₃) =
          >>=-eq-ok (otherwise (unmarshal_trait name) (js.unmarshal t.trait)) _ made in
        let (definition, got, h₄) =
          >>=-eq-ok
            (definition_or (get_trait_definition name) (fetch_trait_definition d (acc.view o))) _
            h₃ in
        let object = complete.0 o (otherwise-ok _ (js.unmarshal t.trait) o read) in
        subst (λ (x : List ValidatingTrait). trait_object_errors x ≡ []) (ok_inj h₂)
          (subst (λ (x : ValidatingTrait). trait_object_errors (x ∷ rest) ≡ []) (ok_inj h₄)
            (add_trait definition o rest object
              (prepare_traits-errors name ts rest complete.1 later)))

    prepare_component-errors :
        (namespace : GoString) (c : ApplicationConfigurationComponent) (v : ValidatingComponent)
        → All IsComplete c.traits
        → prepare_component r d js acc namespace c ≡ ok v
        → trait_object_errors v.validating_traits ≡ []
    unfolding prepare_component
    prepare_component-errors namespace c v complete h =
        let name = comp_name_of c in
        let (comp, _, h₁) =
          >>=-eq-ok (otherwise (λ e. get_component_error e name) (get_component r c namespace)) _
            h in
        let (o, _, h₂) =
          >>=-eq-ok (otherwise (unmarshal_workload name) (js.unmarshal comp.0.spec.workload)) _
            h₁ in
        let (definition, _, h₃) =
          >>=-eq-ok
            (definition_or (get_workload_definition name)
              (fetch_workload_definition d (acc.view o)))
            _ h₂ in
        let (vs, made, h₄) = >>=-eq-ok (prepare_traits r d js acc name c.traits) _ h₃ in
        subst (λ (x : ValidatingComponent). trait_object_errors x.validating_traits ≡ [])
          (ok_inj h₄) (prepare_traits-errors name c.traits vs complete made)

    prepare_components-errors :
        (namespace : GoString) (cs : List ApplicationConfigurationComponent)
        (vs : List ValidatingComponent)
        → All (λ c. All IsComplete c.traits) cs
        → prepare_components r d js acc namespace cs ≡ ok vs
        → validate_trait_object vs ≡ []
    unfolding prepare_components validate_trait_object
    prepare_components-errors namespace [] vs complete h =
        subst (λ (x : List ValidatingComponent). validate_trait_object x ≡ []) (ok_inj h) refl
    prepare_components-errors namespace (c ∷ cs) vs complete h =
        let (v, made, h₁) = >>=-eq-ok (prepare_component r d js acc namespace c) _ h in
        let (rest, later, h₂) = >>=-eq-ok (prepare_components r d js acc namespace cs) _ h₁ in
        subst (λ (x : List ValidatingComponent). validate_trait_object x ≡ []) (ok_inj h₂)
          (rw (prepare_component-errors namespace c v complete.0 made)
            (prepare_components-errors namespace cs rest complete.1 later))

    -- The two webhooks agree: where each trait of a configuration names its type or is a complete object,
    -- and the mutating webhook admits the configuration, the validating one, once it could read what
    -- it needs of the result, finds no error in its trait objects. This is for
    -- CustomResourceDefinitions that have a kind and no version without a name, and for a JSON package
    -- that reads back what it has written.
    pub validate_trait_object-mutate :
        (cl : DefinitionClient)
        → RoundTrip js acc
        → NamesVersions cl
        → (ac ac' : ApplicationConfiguration) (vs : List ValidatingComponent)
        → All (λ c. All IsTypedTrait c.traits) ac.components
        → mutate js acc cl ac ≡ ok ac'
        → prepare_for_validation r d js acc ac' ≡ ok vs
        → validate_trait_object vs ≡ []
    unfolding prepare_for_validation
    validate_trait_object-mutate cl trip named ac ac' vs typed mutated prepared =
        let (_, admitted, _) =
          mutate-ComponentsAdmitted js acc documented cl trip named ac ac' mutated in
        prepare_components-errors ac'.metadata.namespace ac'.components vs
          (ComponentsAdmitted-IsComplete ac.components ac'.components typed admitted) prepared
