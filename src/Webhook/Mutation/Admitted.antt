-- ===== src/Webhook/Mutation/Admitted.antt =====
-- mutating_handler.go and ValidateTraitObjectFn of validating_handler.go: what the mutating webhook
-- makes of a trait that names its type has no errors as an object.
use oam_kubernetes_runtime.Base.{
  GoString, codes, ◌==◌, ==_refl, is_empty, true, false, Bool-cases, Option, some, List, [], ◌∷◌,
  All, Result, ok, err, >>=-eq-ok, ok_inj, ◌≡◌, refl, sym, ap, ◌∙◌, subst, inl, inr,
}
use oam_kubernetes_runtime.Api.{TraitDefinition}
use oam_kubernetes_runtime.Api.Value.{null, Fields}
use oam_kubernetes_runtime.Webhook.Content.{
  get_field, delete_field, get_field-delete_field, get_field-set_field, is_nil_value, metadata_key,
  kind_key, api_version_key, Accessors, Documented, ContentJson, group_version_text_full,
}
use oam_kubernetes_runtime.Webhook.Validation.{trait_object_errors}
use oam_kubernetes_runtime.Webhook.Mutation.{
  trait_type_field, trait_spec_field, CustomResourceDefinition, DefinitionClient, answered,
  first_version, move_properties, typed_content, mutate_typed,
}

-- Every CustomResourceDefinition has a kind, and names for its versions.
abbrev pub NamesVersions : DefinitionClient → Type 0
NamesVersions cl =
    (name : GoString) (crd : CustomResourceDefinition)
    → cl.get_crd name ≡ ok crd
    → (is_empty crd.kind ≡ false) × All (λ v. is_empty v ≡ false) crd.versions

-- A content that ValidateTraitObjectFn has nothing against.
abbrev pub IsObject : Accessors → Fields → Type 0
IsObject acc o =
    (is_nil_value (get_field trait_type_field o) ≡ true)
    × (is_nil_value (get_field trait_spec_field o) ≡ true)
    × (is_empty (acc.view o).api_version ≡ false)
    × (is_empty (acc.view o).kind ≡ false)

name-ne-properties : (trait_spec_field == trait_type_field) ≡ false
unfolding ◌==◌
name-ne-properties = refl

spec-ne-name : (codes "spec" == trait_type_field) ≡ false
unfolding ◌==◌
spec-ne-name = refl

move_properties-name : (o : Fields) → get_field trait_type_field (move_properties o) ≡ null
unfolding move_properties
move_properties-name o =
    elim (Bool-cases
      (is_nil_value (get_field trait_spec_field (delete_field trait_type_field o)))) [
        | inl e ↦
            rw
              (
                e,
                get_field-delete_field trait_type_field trait_type_field o,
                ==_refl trait_type_field,
              )
              refl
        | inr e ↦
            rw
              (
                e,
                get_field-delete_field trait_spec_field trait_type_field _,
                name-ne-properties,
                get_field-set_field (codes "spec") trait_type_field _ _,
                spec-ne-name,
                get_field-delete_field trait_type_field trait_type_field o,
                ==_refl trait_type_field,
              )
              refl
      ]

move_properties-spec :
    (o : Fields) → is_nil_value (get_field trait_spec_field (move_properties o)) ≡ true
unfolding move_properties
move_properties-spec o =
    elim (Bool-cases
      (is_nil_value (get_field trait_spec_field (delete_field trait_type_field o)))) [
        | inl e ↦ rw e e
        | inr e ↦
            rw
              (
                e,
                get_field-delete_field trait_spec_field trait_spec_field _,
                ==_refl trait_spec_field,
              )
              refl
      ]

name-ne-metadata : (trait_type_field == metadata_key) ≡ false
unfolding ◌==◌
name-ne-metadata = refl

name-ne-kind : (trait_type_field == kind_key) ≡ false
unfolding ◌==◌
name-ne-kind = refl

name-ne-api_version : (trait_type_field == api_version_key) ≡ false
unfolding ◌==◌
name-ne-api_version = refl

properties-ne-metadata : (trait_spec_field == metadata_key) ≡ false
unfolding ◌==◌
properties-ne-metadata = refl

properties-ne-kind : (trait_spec_field == kind_key) ≡ false
unfolding ◌==◌
properties-ne-kind = refl

properties-ne-api_version : (trait_spec_field == api_version_key) ≡ false
unfolding ◌==◌
properties-ne-api_version = refl

first_version_full :
    (vs : List GoString) (v : GoString)
    → first_version vs ≡ ok v
    → All (λ x. is_empty x ≡ false) vs
    → is_empty v ≡ false
unfolding first_version
first_version_full [] v h full = cc
first_version_full (x ∷ vs) v h full = subst (λ y. is_empty y ≡ false) (ok_inj h) full.0

pub answered-eq-ok : {A : Type 0} (r : Result GoString A) (a : A) → answered r ≡ ok a → r ≡ ok a
unfolding answered
answered-eq-ok (ok x) a h = cc
answered-eq-ok (err e) a h = cc

module _ (js : ContentJson) (acc : Accessors) (documented : Documented acc)
    (cl : DefinitionClient) where
  -- The setters leave a field alone that is none of theirs.
  typed_content-field :
      (k trait_type : GoString) (crd : CustomResourceDefinition) (version : GoString) (o : Fields)
      → (k == metadata_key) ≡ false
      → (k == kind_key) ≡ false
      → (k == api_version_key) ≡ false
      → get_field k (typed_content js acc cl trait_type crd version o)
        ≡ get_field k (move_properties o)
  unfolding typed_content
  typed_content-field k trait_type crd version o metadata kind api_version =
      documented.field-set_labels k _ _ metadata
      ∙ documented.field-set_kind k _ _ kind
      ∙ documented.field-set_api_version k _ _ api_version

  typed_content-IsObject :
      (trait_type : GoString) (crd : CustomResourceDefinition) (version : GoString) (o : Fields)
      → is_empty version ≡ false
      → is_empty crd.kind ≡ false
      → IsObject acc (typed_content js acc cl trait_type crd version o)
  unfolding typed_content
  typed_content-IsObject trait_type crd version o full kind =
      let name =
        typed_content-field trait_type_field trait_type crd version o name-ne-metadata name-ne-kind
          name-ne-api_version
        ∙ move_properties-name o in
      let properties =
        typed_content-field trait_spec_field trait_type crd version o properties-ne-metadata
          properties-ne-kind properties-ne-api_version in
      (
        ap is_nil_value name,
        ap is_nil_value properties ∙ move_properties-spec o,
        rw
            (
              documented.api_version-set_labels, documented.api_version-set_kind,
              documented.api_version-set,
            )
            (group_version_text_full crd.group version full),
        rw (documented.kind-set_labels, documented.kind-set) kind,
      )

  -- The validator finds no error in such an object, whatever its definition.
  pub trait_object_errors-IsObject :
      (definition : TraitDefinition) (o : Fields)
      → IsObject acc o
      → trait_object_errors
          (record { trait_definition = definition; trait_content = acc.view o } ∷ [])
        ≡ []
  unfolding trait_object_errors
  trait_object_errors-IsObject definition o t =
      rw (documented.content-view o, t.0, t.1, t.2, t.3) refl

  -- What a mutation by a type has made.
  pub made-IsObject :
      NamesVersions cl
      → (trait_type : GoString) (o : Fields) (changed : Option GoString)
      → mutate_typed js acc cl trait_type o ≡ ok changed
      → (o' : Fields) × (raw : GoString) × IsObject acc o'
        × (js.marshal o' ≡ ok raw)
        × (changed ≡ some raw)
  unfolding mutate_typed
  made-IsObject named trait_type o changed h =
      let (definition, _, h₁) = >>=-eq-ok (answered (cl.get_trait_definition trait_type)) _ h in
      let (crd, got, h₂) = >>=-eq-ok (answered (cl.get_crd definition.reference.name)) _ h₁ in
      let (version, first, h₃) = >>=-eq-ok (first_version crd.versions) _ h₂ in
      let (raw, marshalled, h₄) =
        >>=-eq-ok (answered (js.marshal (typed_content js acc cl trait_type crd version o))) _ h₃ in
      let full = named definition.reference.name crd (answered-eq-ok _ crd got) in
      (
        typed_content js acc cl trait_type crd version o,
        raw,
        typed_content-IsObject trait_type crd version o
            (first_version_full crd.versions version first full.1) full.0,
        answered-eq-ok _ raw marshalled,
        sym (ok_inj h₄),
      )
