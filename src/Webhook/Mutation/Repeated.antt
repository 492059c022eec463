-- ===== src/Webhook/Mutation/Repeated.antt =====
-- mutating_handler.go, Mutate on a whole configuration: what becomes of each trait, and that a second
-- mutation changes nothing.
use oam_kubernetes_runtime.Base.{
  GoString, Option, List, [], ◌∷◌, ok, >>=-eq-ok, ok_inj, ◌≡◌, ◌⊎◌, refl, ◌∙◌, subst, inl, inr,
}
use oam_kubernetes_runtime.Api.{
  ApplicationConfiguration, ApplicationConfigurationComponent, ComponentTrait, TraitDefinition,
}
use oam_kubernetes_runtime.Api.Value.{Value, null, bool, number, str, slice, object, Fields}
use oam_kubernetes_runtime.Webhook.Content.{
  get_field, Accessors, Documented, ContentJson, RoundTrip, null_of_nil,
}
use oam_kubernetes_runtime.Webhook.Validation.{trait_object_errors}
use oam_kubernetes_runtime.Webhook.Mutation.{
  trait_type_field, DefinitionClient, answered, mutate_value, mutate_trait, with_raw, mutate_traits,
  mutate_components, mutate,
}
use oam_kubernetes_runtime.Webhook.Mutation.Admitted.{
  NamesVersions, IsObject, answered-eq-ok, trait_object_errors-IsObject, made-IsObject,
}

module _ (js : ContentJson) (acc : Accessors) where
  -- A trait without a type is left alone. Of one with a type the raw object alone changes, to one that
  -- the validator of trait objects accepts under any definition.
  abbrev pub IsAdmitted : ComponentTrait → ComponentTrait → Type 0
  IsAdmitted tr tr' =
      (o : Fields) × (js.unmarshal tr.trait ≡ ok o)
      × (((get_field trait_type_field o ≡ null) × (tr' ≡ tr))
          ⊎ ((trait_type : GoString) × (get_field trait_type_field o ≡ str trait_type)
              × (tr' ≡ record tr { trait = tr'.trait })
              × (o' : Fields) × (js.unmarshal tr'.trait ≡ ok o')
              × IsObject acc o'
              × ((definition : TraitDefinition)
                  → trait_object_errors
                      (record { trait_definition = definition; trait_content = acc.view o' } ∷ [])
                    ≡ [])))

  abbrev pub TraitsAdmitted : List ComponentTrait → List ComponentTrait → Type 0
  TraitsAdmitted [] [] = Unit
  TraitsAdmitted [] (tr' ∷ trs') = ⊥
  TraitsAdmitted (tr ∷ trs) [] = ⊥
  TraitsAdmitted (tr ∷ trs) (tr' ∷ trs') = IsAdmitted tr tr' × TraitsAdmitted trs trs'

  abbrev pub ComponentsAdmitted :
      List ApplicationConfigurationComponent → List ApplicationConfigurationComponent → Type 0
  ComponentsAdmitted [] [] = Unit
  ComponentsAdmitted [] (c' ∷ cs') = ⊥
  ComponentsAdmitted (c ∷ cs) [] = ⊥
  ComponentsAdmitted (c ∷ cs) (c' ∷ cs') =
      (c' ≡ record c { traits = c'.traits })
      × TraitsAdmitted c.traits c'.traits
      × ComponentsAdmitted cs cs'

  module _ (documented : Documented acc) (cl : DefinitionClient) (trip : RoundTrip js acc) where
    read-IsObject : (o : Fields) → IsObject acc o → IsObject acc (trip.read o)
    read-IsObject o t = (
      trip.nil-read _ o ∙ t.0,
      trip.nil-read _ o ∙ t.1,
      rw (trip.api_version-read o) t.2,
      rw (trip.kind-read o) t.3,
    )

    trait-IsAdmitted :
        NamesVersions cl
        → (tr : ComponentTrait) (o : Fields) (v : Value) (changed : Option GoString)
        → js.unmarshal tr.trait ≡ ok o
        → get_field trait_type_field o ≡ v
        → mutate_value js acc cl v o ≡ ok changed
        → IsAdmitted tr (with_raw js acc cl tr changed)
    unfolding mutate_value with_raw
    trait-IsAdmitted named tr o null changed parsed is_v h =
        rw (← ok_inj h) (o, parsed, inl (is_v, refl))
    trait-IsAdmitted named tr o (str trait_type) changed parsed is_v h =
        let (o', raw, t, marshalled, is_some) =
          made-IsObject js acc documented cl named trait_type o changed h in
        let again = trip.unmarshal-marshal o' raw marshalled in
        let t' = read-IsObject o' t in
        rw is_some (
          o,
          parsed,
          inr (
            trait_type,
            is_v,
            refl,
            trip.read o',
            again,
            t',
            λ definition. trait_object_errors-IsObject js acc documented cl definition _ t',
          ),
        )
    trait-IsAdmitted named tr o (bool _) changed parsed is_v h = cc
    trait-IsAdmitted named tr o (number _) changed parsed is_v h = cc
    trait-IsAdmitted named tr o (slice _) changed parsed is_v h = cc
    trait-IsAdmitted named tr o (object _) changed parsed is_v h = cc

    traits-TraitsAdmitted :
        NamesVersions cl
        → (trs trs' : List ComponentTrait) → mutate_traits js acc cl trs ≡ ok trs'
        → TraitsAdmitted trs trs'
    unfolding mutate_traits mutate_trait
    traits-TraitsAdmitted named [] trs' h = subst (TraitsAdmitted []) (ok_inj h) tt
    traits-TraitsAdmitted named (tr ∷ trs) trs' h =
        let (o, parsed, h₁) = >>=-eq-ok (answered (js.unmarshal tr.trait)) _ h in
        let (changed, mutated, h₂) = >>=-eq-ok (mutate_trait js acc cl o) _ h₁ in
        let (rest, later, h₃) = >>=-eq-ok (mutate_traits js acc cl trs) _ h₂ in
        subst (TraitsAdmitted (tr ∷ trs)) (ok_inj h₃) (
          trait-IsAdmitted named tr o (get_field trait_type_field o) changed
              (answered-eq-ok _ o parsed) refl mutated,
          traits-TraitsAdmitted named trs rest later,
        )

    components-ComponentsAdmitted :
        NamesVersions cl
        → (cs cs' : List ApplicationConfigurationComponent)
        → mutate_components js acc cl cs ≡ ok cs'
        → ComponentsAdmitted cs cs'
    unfolding mutate_components
    components-ComponentsAdmitted named [] cs' h = subst (ComponentsAdmitted []) (ok_inj h) tt
    components-ComponentsAdmitted named (c ∷ cs) cs' h =
        let (trs, mutated, h₁) = >>=-eq-ok (mutate_traits js acc cl c.traits) _ h in
        let (rest, later, h₂) = >>=-eq-ok (mutate_components js acc cl cs) _ h₁ in
        subst (ComponentsAdmitted (c ∷ cs)) (ok_inj h₂) (
          refl,
          traits-TraitsAdmitted named c.traits trs mutated,
          components-ComponentsAdmitted named cs rest later,
        )

    -- A trait that was admitted has no type any more.
    untyped :
        (tr tr' : ComponentTrait)
        → IsAdmitted tr tr'
        → (o : Fields) × (js.unmarshal tr'.trait ≡ ok o) × (get_field trait_type_field o ≡ null)
    untyped tr tr' (o, parsed, inl (is_null, same)) = (o, rw same parsed, is_null)
    untyped tr tr' (o, parsed, inr (_, _, _, o', again, t, _)) =
        (o', again, null_of_nil (get_field trait_type_field o') t.0)

    traits_again :
        (trs trs' : List ComponentTrait)
        → TraitsAdmitted trs trs'
        → mutate_traits js acc cl trs' ≡ ok trs'
    unfolding mutate_traits mutate_trait answered with_raw
    traits_again [] [] h = refl
    traits_again [] (tr' ∷ trs') h = absurd h
    traits_again (tr ∷ trs) [] h = absurd h
    traits_again (tr ∷ trs) (tr' ∷ trs') h =
        let (o, parsed, is_null) = untyped tr tr' h.0 in
        rw (parsed, is_null, traits_again trs trs' h.1) refl

    components_again :
        (cs cs' : List ApplicationConfigurationComponent)
        → ComponentsAdmitted cs cs'
        → mutate_components js acc cl cs' ≡ ok cs'
    unfolding mutate_components
    components_again [] [] h = refl
    components_again [] (c' ∷ cs') h = absurd h
    components_again (c ∷ cs) [] h = absurd h
    components_again (c ∷ cs) (c' ∷ cs') h =
        rw (traits_again c.traits c'.traits h.1, components_again cs cs' h.2) refl

    -- A configuration that the mutating webhook admits keeps its components and traits, in their order.
    -- A trait that names no type is left alone; of one that does, only the raw object changes, to an
    -- object that the validator of trait objects accepts. Mutating the result again changes nothing.
    -- This is for CustomResourceDefinitions that have a kind and no version without a name, and for
    -- a JSON package that reads back what it has written.
    pub mutate-ComponentsAdmitted :
        NamesVersions cl
        → (ac ac' : ApplicationConfiguration) → mutate js acc cl ac ≡ ok ac'
        → (ac' ≡ record ac { components = ac'.components })
          × ComponentsAdmitted ac.components ac'.components
          × (mutate js acc cl ac' ≡ ok ac')
    unfolding mutate
    mutate-ComponentsAdmitted named ac ac' h =
        let (cs, mutated, h₁) = >>=-eq-ok (mutate_components js acc cl ac.components) _ h in
        let admitted = components-ComponentsAdmitted named ac.components cs mutated in
        subst
          (λ (x : ApplicationConfiguration).
            (x ≡ record ac { components = x.components })
            × ComponentsAdmitted ac.components x.components
            × (mutate js acc cl x ≡ ok x))
          (ok_inj h₁) (refl, admitted, rw (components_again ac.components cs admitted) refl)
