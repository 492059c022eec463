-- ===== src/Render/Components/Origin.antt =====
-- render.go, renderComponent: every object that is rendered has its origin in its labels.
use oam_kubernetes_runtime.Base.{
  GoString, Option, List, map, length, ok, >>=-eq-ok, ok_inj, All, ◌≡◌, refl, ◌∙◌, subst, [], ◌∷◌,
  ◌⊎◌, inl, inr, ap, ℕ,
}
use oam_kubernetes_runtime.Api.{
  Component, TraitDefinition, ApplicationConfiguration, ApplicationConfigurationComponent,
}
use oam_kubernetes_runtime.Api.Value.{Unstructured}
use oam_kubernetes_runtime.Util.{resource_type_workload}
use oam_kubernetes_runtime.Util.Merge.{IsMap?}
use oam_kubernetes_runtime.Revision.{extract_component_name}
use oam_kubernetes_runtime.Workload.{Workload, Trait, reference_to}
use oam_kubernetes_runtime.Render.Params.{resolve}
use oam_kubernetes_runtime.Render.Naming.{set_workload_instance_name, get_existing_workload}
use oam_kubernetes_runtime.Render.Naming.Kept.{set_workload_instance_name-SamePlace}
use oam_kubernetes_runtime.Render.Dependency.{Dag}
use oam_kubernetes_runtime.Render.Components.{
  Renderer, name_error, resolve_params, lift, get_component, render_traits, set_workload_refs,
  render_scopes, named_component, base_workload, render_component,
}
use oam_kubernetes_runtime.Render.Components.Labelled.{
  Documented, RefsOutsideMetadata, HasOrigin, HasOrigin-same,
}
use oam_kubernetes_runtime.Render.Components.Workloads.{lift-ok, base_workload-HasOrigin}
use oam_kubernetes_runtime.Render.Components.Traits.{
  HasTraitOrigin, render_traits-IsNew, set_workload_refs-HasOrigin,
}

module _ (r : Renderer) (documented : Documented r) where
  module _ (ac : ApplicationConfiguration) (distinct : IsMap? ac.metadata.labels) where
    workload_named-HasOrigin :
        (component revision : GoString) (defs : List TraitDefinition) (w w' : Unstructured)
        (c : Component) (existing : Option Unstructured)
        → HasOrigin ac component revision resource_type_workload w
        → lift name_error (set_workload_instance_name r.fieldpath defs w c existing) ≡ ok w'
        → HasOrigin ac component revision resource_type_workload w'
    workload_named-HasOrigin component revision defs w w' c existing origin h =
        HasOrigin-same r ac component revision resource_type_workload w w'
          (set_workload_instance_name-SamePlace r.fieldpath documented.set_name-keeps defs w w' c
            existing (lift-ok _ (set_workload_instance_name r.fieldpath defs w c existing) w' h))
          origin

    -- The component is named, or the one of the revision that is named.
    abbrev pub IsNamed : ApplicationConfigurationComponent → GoString → Type 0
    IsNamed given name =
        ((given.revision_name ≡ []) × (name ≡ given.component_name))
        ⊎ ((¬ (given.revision_name ≡ [])) × (name ≡ extract_component_name given.revision_name))

    named_component-IsNamed :
        (given : ApplicationConfigurationComponent)
        → IsNamed given (named_component r ac given).component_name
          × ((named_component r ac given).traits ≡ given.traits)
    unfolding named_component
    named_component-IsNamed given = elim (List-cases given.revision_name) [
      | inl e ↦ rw (e, named_component) (inl (refl, refl), refl)
      | inr (x, xs, e) ↦ rw (e, named_component) (inr (cons_ne, refl), refl)
    ]
      where
        List-cases : (s : GoString) → (s ≡ []) ⊎ ((x : ℕ) × (xs : GoString) × (s ≡ x ∷ xs))
        List-cases [] = inl refl
        List-cases (x ∷ xs) = inr (x, xs, refl)

        cons_ne : {x : ℕ} {xs : GoString} → ¬ (◌≡◌ {A = GoString} (x ∷ xs) [])
        cons_ne h = cc

    -- What is rendered for a component.
    abbrev pub IsRendered : ApplicationConfigurationComponent → Workload → Type 0
    IsRendered given w =
        IsNamed given w.component_name
        × HasOrigin ac w.component_name w.component_revision_name resource_type_workload w.workload
        × All (HasTraitOrigin r documented ac distinct w.component_name w.component_revision_name)
            w.traits
        × (length w.traits ≡ length given.traits)

    -- A rendered component has the name of the given one, or the name in that of its revision, and as many
    -- traits as the given one. Its
    -- workload and each of its traits are in the namespace of the configuration and have four labels:
    -- the configuration's name, this component, its revision and the type of resource. Condition: the
    -- libraries do what they document, no trait definition asks for the reference to the workload in
    -- the trait's metadata, and no label of the configuration stands twice.
    pub render_component-IsRendered :
        RefsOutsideMetadata r
        → (given : ApplicationConfigurationComponent) (dag : Dag) (p : Workload × Dag)
        → render_component r ac given dag ≡ ok p
        → IsRendered given p.0
    unfolding render_component
    render_component-IsRendered outside given dag p h =
        let acc = named_component r ac given in
        let (named_as, kept) = named_component-IsNamed given in
        let (cr, got, h₁) = >>=-eq-ok (get_component r acc ac.metadata.namespace) _ h in
        let (ps, resolved, h₂) =
          >>=-eq-ok (lift resolve_params (resolve cr.0.spec.parameters acc.parameter_values)) _
            h₁ in
        let (w, based, h₃) = >>=-eq-ok (base_workload r ac acc.component_name cr.1 cr.0 ps) _ h₂ in
        let (td, trait_made, h₄) =
          >>=-eq-ok (render_traits r ac acc.component_name cr.1 acc.traits dag) _ h₃ in
        let (existing, found_it, h₅) =
          >>=-eq-ok (lift name_error (get_existing_workload r.reader ac cr.0 w)) _ h₄ in
        let defs = map (λ (t : Trait). t.definition) td.0 in
        let (w', named, h₆) =
          >>=-eq-ok (lift name_error (set_workload_instance_name r.fieldpath defs w cr.0 existing))
            _ h₅ in
        let (traits', referred, h₇) =
          >>=-eq-ok (set_workload_refs r ac (reference_to w') td.0) _ h₆ in
        let (scopes, scoped, h₈) = >>=-eq-ok (render_scopes r ac acc.scopes) _ h₇ in
        let (new, counted) =
          render_traits-IsNew r documented ac distinct outside acc.component_name cr.1 acc.traits
            dag td trait_made in
        let (origins, same) =
          set_workload_refs-HasOrigin r documented ac distinct acc.component_name cr.1
            (reference_to w') td.0 traits' new referred in
        subst (λ (q : Workload × Dag). IsRendered given q.0) (ok_inj h₈)
          (
            named_as,
            workload_named-HasOrigin acc.component_name cr.1 defs w w' cr.0 existing
                (base_workload-HasOrigin r documented ac distinct acc.component_name cr.1 cr.0 ps w
                  based)
                named,
            origins,
            same ∙ counted ∙ ap length kept,
          )
