-- ===== src/Webhook/Component/Mutated.antt =====
-- A component whose workload names its type: what the mutating webhook makes of it passes the
-- validating one.
use oam_kubernetes_runtime.Base.{
  GoString, ◌==◌, ==_refl, is_empty, true, false, List, [], ◌∷◌, append-nil, All, ok, >>=-eq-ok,
  ok_inj, ◌≡◌, refl, sym, ap, ◌∙◌, subst,
}
use oam_kubernetes_runtime.Api.{ObjectMeta, Component, DefinitionReference}
use oam_kubernetes_runtime.Api.Value.{str, Fields}
use oam_kubernetes_runtime.Webhook.Content.{
  get_field, get_field-delete_field, is_nil_value, metadata_key, kind_key, api_version_key,
  Accessors, Documented, ContentJson, RoundTrip, null_of_nil, GroupVersionKind,
  group_version_text_full,
}
use oam_kubernetes_runtime.Webhook.Component.{
  type_field, WorkloadDefinitions, first_kind, get_gvk_from_definition, typed_content, mutate_typed,
  mutate, ComponentError, workload_errors, validate_component_object,
}

-- Every kind that the mapper finds has a version and a name.
abbrev pub NamesKinds : WorkloadDefinitions → Type 0
NamesKinds defs =
    (ref : DefinitionReference) (gvks : List GroupVersionKind)
    → defs.kinds_for ref ≡ ok gvks
    → All (λ g. (is_empty g.version ≡ false) × (is_empty g.kind ≡ false)) gvks

-- A content that the validating webhook has nothing against.
abbrev IsTyped : Accessors → Fields → Type 0
IsTyped acc o =
    (is_nil_value (get_field type_field o) ≡ true)
    × (is_empty (acc.view o).api_version ≡ false)
    × (is_empty (acc.view o).kind ≡ false)

first_kind_named :
    (ref : DefinitionReference) (gvks : List GroupVersionKind) (gvk : GroupVersionKind)
    → first_kind ref gvks ≡ ok gvk
    → All (λ g. (is_empty g.version ≡ false) × (is_empty g.kind ≡ false)) gvks
    → (is_empty gvk.version ≡ false) × (is_empty gvk.kind ≡ false)
unfolding first_kind
first_kind_named ref [] gvk h named = cc
first_kind_named ref (g ∷ gvks) gvk h named =
    subst (λ (x : GroupVersionKind). (is_empty x.version ≡ false) × (is_empty x.kind ≡ false))
      (ok_inj h) named.0

type-ne-metadata : (type_field == metadata_key) ≡ false
unfolding ◌==◌
type-ne-metadata = refl

type-ne-kind : (type_field == kind_key) ≡ false
unfolding ◌==◌
type-ne-kind = refl

type-ne-api_version : (type_field == api_version_key) ≡ false
unfolding ◌==◌
type-ne-api_version = refl

module _ (js : ContentJson) (acc : Accessors) (documented : Documented acc)
    (defs : WorkloadDefinitions) where
  typed_content-IsTyped :
      (c : Component) (workload_type : GoString) (gvk : GroupVersionKind) (o : Fields)
      → is_empty gvk.version ≡ false
      → is_empty gvk.kind ≡ false
      → IsTyped acc (typed_content js acc defs c workload_type gvk o)
  unfolding typed_content
  typed_content-IsTyped c workload_type gvk o version kind = (
    rw
        (
          documented.field-set_annotations type_field _ _ type-ne-metadata,
          documented.field-set_labels type_field _ _ type-ne-metadata,
          documented.field-set_namespace type_field _ _ type-ne-metadata,
          documented.field-set_kind type_field _ _ type-ne-kind,
          documented.field-set_api_version type_field _ _ type-ne-api_version,
          get_field-delete_field type_field type_field o,
          ==_refl type_field,
        )
        refl,
    rw
        (
          documented.api_version-set_annotations, documented.api_version-set_labels,
          documented.api_version-set_namespace, documented.api_version-set_kind,
          documented.api_version-set,
        )
        (group_version_text_full gvk.group gvk.version version),
    rw
        (
          documented.kind-set_annotations, documented.kind-set_labels,
          documented.kind-set_namespace, documented.kind-set,
        )
        kind,
  )

  -- What a mutation by a type has made.
  made-IsTyped :
      NamesKinds defs
      → (c c' : Component) (workload_type : GoString) (o : Fields)
      → mutate_typed js acc defs c workload_type o ≡ ok c'
      → (o' : Fields) × IsTyped acc o'
        × (js.marshal o' ≡ ok c'.spec.workload)
        × (c'.metadata ≡ c.metadata)
  unfolding mutate_typed get_gvk_from_definition
  made-IsTyped named c c' workload_type o h =
      let (definition, _, h₁) = >>=-eq-ok (defs.get_workload_definition workload_type) _ h in
      let (gvk, got, h₂) = >>=-eq-ok (get_gvk_from_definition defs definition.reference) _ h₁ in
      let (gvks, kinds, first) = >>=-eq-ok (defs.kinds_for definition.reference) _ got in
      let full = first_kind_named definition.reference gvks gvk first (named _ gvks kinds) in
      let (raw, marshalled, h₃) =
        >>=-eq-ok (js.marshal (typed_content js acc defs c workload_type gvk o)) _ h₂ in
      let same = ok_inj h₃ in
      (
        typed_content js acc defs c workload_type gvk o,
        typed_content-IsTyped c workload_type gvk o full.0 full.1,
        marshalled ∙ ap (λ (x : Component). ok x.spec.workload) same,
        ap (λ (x : Component). x.metadata) (sym same),
      )

  mutate_of_type :
      (c : Component) (o : Fields) (workload_type : GoString)
      → js.unmarshal c.spec.workload ≡ ok o
      → get_field type_field o ≡ str workload_type
      → mutate js acc defs c ≡ mutate_typed js acc defs c workload_type o
  unfolding mutate
  mutate_of_type c o workload_type parsed typed = rw (parsed, typed) refl

  mutate_untyped :
      (c : Component) (o : Fields)
      → js.unmarshal c.spec.workload ≡ ok o
      → is_nil_value (get_field type_field o) ≡ true
      → mutate js acc defs c ≡ ok c
  unfolding mutate
  mutate_untyped c o parsed untyped = rw (parsed, null_of_nil (get_field type_field o) untyped) refl

  validate_typed :
      (validate_object_meta : ObjectMeta → List (ComponentError js acc)) (c : Component)
      (o : Fields)
      → js.unmarshal c.spec.workload ≡ ok o
      → IsTyped acc o
      → validate_component_object js acc validate_object_meta c ≡ validate_object_meta c.metadata
  unfolding validate_component_object
  validate_typed validate_object_meta c o parsed t =
      rw (parsed, workload_errors, t.0, t.1, t.2) (append-nil (validate_object_meta c.metadata))

  module _ (trip : RoundTrip js acc) where
    read-IsTyped : (o : Fields) → IsTyped acc o → IsTyped acc (trip.read o)
    read-IsTyped o t = (
      trip.nil-read type_field o ∙ t.0,
      rw (trip.api_version-read o) t.1,
      rw (trip.kind-read o) t.2,
    )

    -- A component that names the type of its workload and that the mutating webhook admits is complete:
    -- the validating webhook finds no error but those of its metadata, and mutating it again changes
    -- nothing. This is for a mapper that finds no kinds without a version or a name, and for a JSON
    -- package that reads back what it has written.
    pub mutate-accepted :
        NamesKinds defs
        → (c c' : Component) (o : Fields) (workload_type : GoString)
        → js.unmarshal c.spec.workload ≡ ok o
        → get_field type_field o ≡ str workload_type
        → mutate js acc defs c ≡ ok c'
        → (validate_object_meta : ObjectMeta → List (ComponentError js acc))
        → (validate_component_object js acc validate_object_meta c'
            ≡ validate_object_meta c.metadata)
          × (mutate js acc defs c' ≡ ok c')
    mutate-accepted named c c' o workload_type parsed typed h validate_object_meta =
        let (o', t, marshalled, same) =
          made-IsTyped named c c' workload_type o
            (sym (mutate_of_type c o workload_type parsed typed) ∙ h) in
        let again = trip.unmarshal-marshal o' c'.spec.workload marshalled in
        let t' = read-IsTyped o' t in
        (
          validate_typed validate_object_meta c' (trip.read o') again t'
              ∙ ap validate_object_meta same,
          mutate_untyped c' (trip.read o') again t'.0,
        )
