-- ===== src/Render/Components/Traits.antt =====
-- render.go, renderTrait and the two loops over the traits of a component: their labels.
use oam_kubernetes_runtime.Base.{
  suc, GoString, codes, is_empty, has_prefix, false, Bool-cases, List, [], ◌∷◌, length, ok,
  >>=-eq-ok, ok_inj, All, ◌≡◌, refl, ap, ◌∙◌, subst, inl, inr,
}
use oam_kubernetes_runtime.Api.{
  TypedReference, ComponentTrait, TraitDefinition, ApplicationConfiguration,
}
use oam_kubernetes_runtime.Api.Value.{Unstructured}
use oam_kubernetes_runtime.Api.Fieldpath.{Got, found, missing, failed}
use oam_kubernetes_runtime.Util.{
  resource_type_trait, add_labels, add_annotations, pass_label_and_annotation,
}
use oam_kubernetes_runtime.Util.Definitions.{fetch_trait_definition}
use oam_kubernetes_runtime.Util.Merge.{IsMap?}
use oam_kubernetes_runtime.Workload.{Trait}
use oam_kubernetes_runtime.Render.Naming.{get_trait_name, set_trait_properties}
use oam_kubernetes_runtime.Render.Dependency.{Dag}
use oam_kubernetes_runtime.Render.Components.{
  Renderer, unmarshal_trait_error, set_workload_ref, lift, definition_of,
  get_dummy_trait_definition, comp_info_labels, with_origin, render_trait, render_traits, new_trait,
  set_ref, set_workload_refs,
}
use oam_kubernetes_runtime.Render.Components.Labelled.{
  Documented, RefsOutsideMetadata, HasOrigin, with_origin-HasOrigin, HasOrigin-same,
}
use oam_kubernetes_runtime.Render.Components.Workloads.{lift-ok}

module _ (r : Renderer) (documented : Documented r) where
  module _ (ac : ApplicationConfiguration) (distinct : IsMap? ac.metadata.labels) where
    -- A trait as the first loop leaves it.
    abbrev pub IsNew : GoString → GoString → Trait → Type 0
    IsNew component revision t =
        HasOrigin ac component revision resource_type_trait t.object
        × (has_prefix t.definition.workload_ref_path (codes "metadata") ≡ false)

    dummy_path : has_prefix [] (codes "metadata") ≡ false
    unfolding has_prefix
    dummy_path = refl

    set_trait_properties-IsMap :
        (t : Unstructured) (name : GoString)
        → IsMap? t.labels
        → IsMap? (set_trait_properties (r.set_owner ac) t name ac.metadata.namespace).labels
    unfolding set_trait_properties
    set_trait_properties-IsMap t name m = elim (Bool-cases (is_empty t.name)) [
      | inl e ↦ rw (e, documented.labels-set_owner ac (record t { name = name })) m
      | inr e ↦ rw (e, documented.labels-set_owner ac t) m
    ]

    set_trait_properties-namespace :
        (t : Unstructured) (name : GoString)
        → (set_trait_properties (r.set_owner ac) t name ac.metadata.namespace).namespace
          ≡ ac.metadata.namespace
    unfolding set_trait_properties
    set_trait_properties-namespace t name = refl

    definition_of-ref :
        RefsOutsideMetadata r
        → (t : Unstructured) (got : Got TraitDefinition) (d : TraitDefinition)
        → fetch_trait_definition r.definitions t ≡ got
        → definition_of r t got ≡ ok d
        → has_prefix d.workload_ref_path (codes "metadata") ≡ false
    unfolding definition_of get_dummy_trait_definition
    definition_of-ref outside t (found x) d is_got h =
        outside t d (is_got ∙ ap (λ y. found y) (ok_inj h))
    definition_of-ref outside t missing d is_got h =
        subst (λ (y : TraitDefinition). has_prefix y.workload_ref_path (codes "metadata") ≡ false)
          (ok_inj h) dummy_path
    definition_of-ref outside t (failed e) d is_got h = cc

    labelled-HasOrigin :
        (component revision : GoString) (t : Unstructured)
        → IsMap? t.labels
        → t.namespace ≡ ac.metadata.namespace
        → HasOrigin ac component revision resource_type_trait
            (with_origin r ac (comp_info_labels r ac component revision resource_type_trait) t)
    unfolding with_origin add_labels add_annotations pass_label_and_annotation
    labelled-HasOrigin component revision t is_map ns =
        with_origin-HasOrigin r ac component revision resource_type_trait t distinct is_map
          (with_origin r ac (comp_info_labels r ac component revision resource_type_trait) t) refl
          ns

    render_trait-IsNew :
        RefsOutsideMetadata r
        → (component revision : GoString) (ct : ComponentTrait) (dag : Dag)
          (p : Unstructured × TraitDefinition × Dag)
        → render_trait r ac component ct dag ≡ ok p
        → IsNew component revision (
            new_trait r ac
              (with_origin r ac (comp_info_labels r ac component revision resource_type_trait) p.0)
              p.1)
    unfolding render_trait
    render_trait-IsNew outside component revision ct dag p h =
        let (t, parsed, h₁) =
          >>=-eq-ok (lift unmarshal_trait_error (r.unmarshal_object ct.trait)) _ h in
        let (definition, got, h₂) =
          >>=-eq-ok (definition_of r t (fetch_trait_definition r.definitions t)) _ h₁ in
        let name = get_trait_name r.compute_hash ac component ct t definition in
        let t' = set_trait_properties (r.set_owner ac) t name ac.metadata.namespace in
        let is_map =
          documented.unmarshal-IsMap ct.trait t
            (lift-ok _ (r.unmarshal_object ct.trait) t parsed) in
        subst
          (λ (q : Unstructured × TraitDefinition × Dag). IsNew component revision (
            new_trait r ac
              (with_origin r ac (comp_info_labels r ac component revision resource_type_trait) q.0)
              q.1))
          (ok_inj h₂)
          (
            labelled-HasOrigin component revision t' (set_trait_properties-IsMap t name is_map)
                (set_trait_properties-namespace t name),
            definition_of-ref outside t (fetch_trait_definition r.definitions t) definition refl
                got,
          )

    pub render_traits-IsNew :
        RefsOutsideMetadata r
        → (component revision : GoString) (cts : List ComponentTrait) (dag : Dag)
          (p : List Trait × Dag)
        → render_traits r ac component revision cts dag ≡ ok p
        → All (IsNew component revision) p.0 × (length p.0 ≡ length cts)
    unfolding render_traits
    render_traits-IsNew outside component revision [] dag p h =
        subst (λ (q : List Trait × Dag). All (IsNew component revision) q.0 × (length q.0 ≡ 0))
          (ok_inj h) (tt, refl)
    render_traits-IsNew outside component revision (ct ∷ cts) dag p h =
        let (t, made, h₁) = >>=-eq-ok (render_trait r ac component ct dag) _ h in
        let (rest, more, h₂) = >>=-eq-ok (render_traits r ac component revision cts t.2) _ h₁ in
        let ih = render_traits-IsNew outside component revision cts t.2 rest more in
        subst
          (λ (q : List Trait × Dag).
            All (IsNew component revision) q.0 × (length q.0 ≡ suc (length cts)))
          (ok_inj h₂)
          ((render_trait-IsNew outside component revision ct dag t made, ih.0), ap suc ih.1)

    abbrev pub HasTraitOrigin : GoString → GoString → Trait → Type 0
    HasTraitOrigin component revision t =
        HasOrigin ac component revision resource_type_trait t.object

    set_ref-HasOrigin :
        (component revision : GoString) (ref : TypedReference) (t t' : Trait)
        → IsNew component revision t
        → set_ref r ac ref t ≡ ok t'
        → HasTraitOrigin component revision t'
    unfolding set_ref
    set_ref-HasOrigin component revision ref t t' new h =
        elim (Bool-cases (is_empty t.definition.workload_ref_path)) [
          | inl e ↦ subst (HasTraitOrigin component revision) (ok_inj (rw e at h)) new.0
          | inr e ↦
              let (o, set, h₁) =
                >>=-eq-ok
                  (lift (λ _. set_workload_ref)
                    (r.fieldpath.set_value t.object t.definition.workload_ref_path
                      (r.ref_value ref)))
                  _ (rw e at h) in
              subst (HasTraitOrigin component revision) (ok_inj h₁) (
                HasOrigin-same r ac component revision resource_type_trait t.object o
                  (documented.set_value-keeps t.object o t.definition.workload_ref_path
                    (r.ref_value ref) new.1
                    (lift-ok _
                      (r.fieldpath.set_value t.object t.definition.workload_ref_path
                        (r.ref_value ref))
                      o set))
                  new.0)
        ]

    pub set_workload_refs-HasOrigin :
        (component revision : GoString) (ref : TypedReference) (ts ts' : List Trait)
        → All (IsNew component revision) ts
        → set_workload_refs r ac ref ts ≡ ok ts'
        → All (HasTraitOrigin component revision) ts' × (length ts' ≡ length ts)
    unfolding set_workload_refs
    set_workload_refs-HasOrigin component revision ref [] ts' new h =
        subst (λ (q : List Trait). All (HasTraitOrigin component revision) q × (length q ≡ 0))
          (ok_inj h) (tt, refl)
    set_workload_refs-HasOrigin component revision ref (t ∷ ts) ts' new h =
        let (t₁, set, h₁) = >>=-eq-ok (set_ref r ac ref t) _ h in
        let (rest, later, h₂) = >>=-eq-ok (set_workload_refs r ac ref ts) _ h₁ in
        let ih = set_workload_refs-HasOrigin component revision ref ts rest new.1 later in
        subst
          (λ (q : List Trait).
            All (HasTraitOrigin component revision) q × (length q ≡ suc (length ts)))
          (ok_inj h₂) ((set_ref-HasOrigin component revision ref t t₁ new.0 set, ih.0), ap suc ih.1)
