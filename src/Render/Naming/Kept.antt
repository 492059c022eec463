-- ===== src/Render/Naming/Kept.antt =====
-- render.go, SetWorkloadInstanceName and setTraitProperties: what naming an object leaves alone.
use oam_kubernetes_runtime.Base.{
  GoString, is_empty, Bool-cases, Option, Option-cases, List, ok, ok_inj, Result-cases, ◌≡◌, sym,
  ap, ◌∙◌, inl, inr,
}
use oam_kubernetes_runtime.Api.{Component, TraitDefinition}
use oam_kubernetes_runtime.Api.Value.{Value, str, Unstructured}
use oam_kubernetes_runtime.Api.Fieldpath.{Fieldpath}
use oam_kubernetes_runtime.Render.Naming.{
  is_revision_enabled, instance_name_path, set_name, has_revision, name_of,
  set_workload_instance_name,
}

-- Labels and namespace are the same.
abbrev pub SamePlace : Unstructured → Unstructured → Type 0
SamePlace u u' = (u'.labels ≡ u.labels) × (u'.namespace ≡ u.namespace)

module _ (fp : Fieldpath)
    (keeps : (u u' : Unstructured) (v : Value)
      → fp.set_value u instance_name_path v ≡ ok u'
      → SamePlace u u') where
  set_name-SamePlace :
      (w w' : Unstructured) (name : GoString) → set_name fp w name ≡ ok w' → SamePlace w w'
  unfolding set_name
  set_name-SamePlace w w' name h =
      elim (Result-cases (fp.set_value w instance_name_path (str name))) [
        | inl (u, e) ↦ keeps w w' (str name) (e ∙ ap ok (ok_inj (rw (e, set_name) at h)))
        | inr (x, e) ↦ let g = rw (e, set_name) at h in cc
      ]

  pub set_workload_instance_name-SamePlace :
      (defs : List TraitDefinition) (w w' : Unstructured) (c : Component)
      (existing : Option Unstructured)
      → set_workload_instance_name fp defs w c existing ≡ ok w'
      → SamePlace w w'
  unfolding set_workload_instance_name
  set_workload_instance_name-SamePlace defs w w' c existing h =
      elim (Bool-cases (is_empty w.name)) [
        | inr e ↦
            let same = ok_inj (rw e at h) in
            (
              ap (λ (u : Unstructured). u.labels) (sym same),
              ap (λ (u : Unstructured). u.namespace) (sym same),
            )
        | inl e ↦ elim (Bool-cases (is_revision_enabled defs)) [
          | inr f ↦ set_name-SamePlace w w' c.metadata.name (rw (e, f) at h)
          | inl f ↦ elim (Option-cases c.status.latest_revision) [
            | inl g ↦ let bad = rw (e, f, g) at h in cc
            | inr (latest, g) ↦ elim (Bool-cases (has_revision existing latest.name)) [
              | inl k ↦ set_name-SamePlace w w' (name_of existing) (rw (e, f, g, k) at h)
              | inr k ↦ set_name-SamePlace w w' latest.name (rw (e, f, g, k) at h)
            ]
          ]
        ]
      ]
