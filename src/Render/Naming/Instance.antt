-- ===== src/Render/Naming/Instance.antt =====
-- render.go: what a workload and a trait are named.
use oam_kubernetes_runtime.Base.{
  GoString, ==_iff, is_empty, true, false, Bool-cases, Option, none, some, List, [], ◌∷◌, Result,
  ok, err, ok_inj, err-ne-ok, ◌≡◌, ◌≢◌, ◌⊎◌, All, Any, refl, sym, ap, ap₂, ◌∙◌, arith, inl, inr,
  Option-cases,
}
use oam_kubernetes_runtime.Api.{
  Component, ComponentTrait, TraitDefinition, ApplicationConfiguration, Revision,
}
use oam_kubernetes_runtime.Api.Value.{str, Unstructured}
use oam_kubernetes_runtime.Api.Fieldpath.{Fieldpath}
use oam_kubernetes_runtime.Util.{index, label_app_component_revision}
use oam_kubernetes_runtime.Render.Naming.{
  NameError, is_revision_enabled, instance_name_path, set_name, has_revision, name_of,
  set_workload_instance_name, recorded_name, get_trait_name,
}
use oam_kubernetes_runtime.Render.Naming.Recorded.{IsRecorded, IsRecorded-name}

is_empty-nonempty : (s : GoString) → s ≢ [] → is_empty s ≡ false
is_empty-nonempty [] h = absurd (h refl)
is_empty-nonempty (c ∷ s) h = refl

-- That object is in the cluster and runs that revision.
abbrev pub Runs : Option Unstructured → GoString → Unstructured → Type 0
Runs existing revision u =
    (existing ≡ some u) × (index u.labels label_app_component_revision ≡ revision)

-- Whether a definition asks for revisions, by a search.
is_revision_enabled-true :
    (trait_defs : List TraitDefinition)
    → is_revision_enabled trait_defs ≡ true
    → Any (λ d. d.revision_enabled ≡ true) trait_defs
unfolding is_revision_enabled
is_revision_enabled-true [] h = cc
is_revision_enabled-true (d ∷ ds) h = elim (Bool-cases d.revision_enabled) [
  | inl e ↦ inl e
  | inr e ↦ inr (is_revision_enabled-true ds (rw (e, is_revision_enabled) at h))
]

is_revision_enabled-false :
    (trait_defs : List TraitDefinition)
    → is_revision_enabled trait_defs ≡ false
    → All (λ d. d.revision_enabled ≡ false) trait_defs
unfolding is_revision_enabled
is_revision_enabled-false [] h = tt
is_revision_enabled-false (d ∷ ds) h = elim (Bool-cases d.revision_enabled) [
  | inl e ↦ absurd (ground (arith, rw (e, is_revision_enabled) at h))
  | inr e ↦ (e, is_revision_enabled-false ds (rw (e, is_revision_enabled) at h))
]

module _ (fp : Fieldpath)
    (sets : (u u' : Unstructured) (n : GoString)
      → fp.set_value u instance_name_path (str n) ≡ ok u'
      → u'.name ≡ n) where
  set_name-name : (w w' : Unstructured) (n : GoString) → set_name fp w n ≡ ok w' → w'.name ≡ n
  unfolding set_name
  set_name-name w w' n h = by (fp.set_value w instance_name_path (str n)) refl h
    where
      by :
          (r : Result GoString Unstructured)
          → fp.set_value w instance_name_path (str n) ≡ r
          → (elim r [ ok u ↦ ok u | err _ ↦ err NameError.set_value_for_field ]) ≡ ok w'
          → w'.name ≡ n
      by (ok u) e k = ap (λ x. x.name) (sym (ok_inj k)) ∙ sets w u n e
      by (err _) e k = absurd (err-ne-ok _ _ k)

  has_revision-Runs :
      (existing : Option Unstructured) (revision : GoString)
      → has_revision existing revision ≡ true
      → (u : Unstructured) × Runs existing revision u × (name_of existing ≡ u.name)
  unfolding has_revision
  has_revision-Runs none revision h = absurd (ground (arith, h))
  has_revision-Runs (some u) revision h =
      (u, (refl, (==_iff (index u.labels label_app_component_revision) revision).0 h), refl)

  has_revision-ne :
      (existing : Option Unstructured) (revision : GoString)
      → has_revision existing revision ≡ false
      → ¬ ((u : Unstructured) × Runs existing revision u)
  unfolding has_revision
  has_revision-ne none revision h (u, (e, same)) = cc
  has_revision-ne (some v) revision h (u, (e, same)) =
      let is_v : v ≡ u = cc in
      let runs =
        (==_iff (index v.labels label_app_component_revision) revision).1
          (ap (λ (x : Unstructured). index x.labels label_app_component_revision) is_v ∙ same) in
      ground (arith, h, runs)

  -- A workload without a name gets one: the component's name if no trait is versioned; else the
  -- name of the component's latest revision, which there must be, if the workload in the cluster does
  -- not run that revision; a workload in the cluster that does keeps its name.
  pub set_workload_instance_name-name :
      (trait_defs : List TraitDefinition) (w w' : Unstructured) (c : Component)
      (existing : Option Unstructured)
      → set_workload_instance_name fp trait_defs w c existing ≡ ok w'
      → w.name ≡ []
      → (All (λ d. d.revision_enabled ≡ false) trait_defs × (w'.name ≡ c.metadata.name))
        ⊎ (Any (λ d. d.revision_enabled ≡ true) trait_defs
            × (latest : Revision) × (c.status.latest_revision ≡ some latest)
            × (((u : Unstructured) × Runs existing latest.name u × (w'.name ≡ u.name))
                ⊎ ((¬ ((u : Unstructured) × Runs existing latest.name u))
                    × (w'.name ≡ latest.name))))
  unfolding set_workload_instance_name
  set_workload_instance_name-name trait_defs w w' c existing h unnamed =
      elim (Bool-cases (is_revision_enabled trait_defs)) [
        | inr off ↦ inl (
          is_revision_enabled-false trait_defs off,
          set_name-name w w' c.metadata.name (rw (un, off, set_workload_instance_name) at h),
        )
        | inl on ↦ elim (Option-cases c.status.latest_revision) [
          | inl e ↦ absurd (err-ne-ok _ _ (rw (un, on, e, set_workload_instance_name) at h))
          | inr (latest, e) ↦ inr (
            is_revision_enabled-true trait_defs on,
            latest,
            e,
            elim (Bool-cases (has_revision existing latest.name)) [
              | inl r ↦
                  let (u, runs, same) = has_revision-Runs existing latest.name r in
                  let named =
                    set_name-name w w' (name_of existing)
                      (rw (un, on, e, r, set_workload_instance_name) at h) in
                  inl (u, runs, named ∙ same)
              | inr r ↦ inr (
                has_revision-ne existing latest.name r,
                set_name-name w w' latest.name (rw (un, on, e, r, set_workload_instance_name) at h),
              )
            ],
          )
        ]
      ]
    where
      un : is_empty w.name ≡ true
      un = ap is_empty unnamed

get_trait_name-recorded :
    (compute_hash : ComponentTrait → GoString) (ac : ApplicationConfiguration)
    (component : GoString) (ct : ComponentTrait) (t : Unstructured) (def : TraitDefinition)
    (recorded : GoString)
    → t.name ≡ []
    → recorded ≢ []
    → recorded_name [] ac.status.workloads component t.api_version t.kind ≡ recorded
    → get_trait_name compute_hash ac component ct t def ≡ recorded
unfolding get_trait_name
get_trait_name-recorded compute_hash ac component ct t def recorded e r same =
    rw (e, same, is_empty-nonempty recorded r) refl

-- Two traits of one type in a component that are given without names both get the name of the last entry
-- of that type in the last status of that component, if it has a name: they get the same one.
pub get_trait_name_shared :
    (compute_hash : ComponentTrait → GoString) (ac : ApplicationConfiguration)
    (component : GoString) (ct ct' : ComponentTrait) (t t' : Unstructured)
    (def def' : TraitDefinition) (name : GoString)
    → t.name ≡ []
    → t'.name ≡ []
    → t.api_version ≡ t'.api_version
    → t.kind ≡ t'.kind
    → name ≢ []
    → IsRecorded ac component t.api_version t.kind name
    → (get_trait_name compute_hash ac component ct t def ≡ name)
      × (get_trait_name compute_hash ac component ct' t' def' ≡ name)
get_trait_name_shared compute_hash ac component ct ct' t t' def def' name e e' a k full rec =
    let recorded = IsRecorded-name ac component t.api_version t.kind name rec in
    (
      get_trait_name-recorded compute_hash ac component ct t def name e full recorded,
      get_trait_name-recorded compute_hash ac component ct' t' def' name e' full
          (sym (ap₂ (λ x y. recorded_name [] ac.status.workloads component x y) a k) ∙ recorded),
    )
