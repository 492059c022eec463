-- ===== src/Reconcile/Status/Survival.antt =====
-- applicationconfiguration.go, patchExtraStatusField: it restores statuses and nothing else.
use oam_kubernetes_runtime.Base.{
  GoString, ◌==◌, ==_iff, ==_refl, is_empty, Bool, true, false, not, ◌&&◌, List, [], ◌∷◌, map,
  if◌then◌else◌, ◌≡◌, refl, sym, ap, ap₂, ◌∙◌, All, Mem, Mem_of_All, map-map_self, inl, inr, arith,
  Bool-cases, subst,
}
use oam_kubernetes_runtime.Api.{TypedReference, WorkloadTrait, WorkloadStatus}
use oam_kubernetes_runtime.Reconcile.Status.{
  same_ref, patch_trait, patch_from, patch_workload, patch_extra_status_field,
}

-- The status as rendering leaves it: without what other controllers fill in.
wipe_trait : WorkloadTrait → WorkloadTrait
wipe_trait t = record t { status = [] }

pub wipe : WorkloadStatus → WorkloadStatus
unfolding wipe_trait
wipe w = record w { status = []; traits = map wipe_trait w.traits }

wipe_either :
    (b : Bool) (s : GoString) (tr : WorkloadTrait)
    → wipe_trait (if b then record tr { status = s } else tr) ≡ wipe_trait tr
unfolding wipe_trait
wipe_either true s tr = refl
wipe_either false s tr = refl

wipe_trait-patch_trait :
    (ts : List WorkloadTrait) (tr : WorkloadTrait) → wipe_trait (patch_trait ts tr) ≡ wipe_trait tr
unfolding patch_trait wipe_trait
wipe_trait-patch_trait [] tr = refl
wipe_trait-patch_trait (t ∷ ts) tr =
    wipe_trait-patch_trait ts _
    ∙ wipe_either (same_ref t.reference tr.reference && not (is_empty t.status)) t.status tr

wipe_traits-patch_trait :
    (old ts : List WorkloadTrait) → map wipe_trait (map (patch_trait old) ts) ≡ map wipe_trait ts
wipe_traits-patch_trait old [] = refl
wipe_traits-patch_trait old (t ∷ ts) =
    ap₂ (λ u us. u ∷ us) (wipe_trait-patch_trait old t) (wipe_traits-patch_trait old ts)

wipe-patch_from : (old w : WorkloadStatus) → wipe (patch_from old w) ≡ wipe w
unfolding wipe patch_from
wipe-patch_from old w =
    elim (Bool-cases (w.component_revision_name == old.component_revision_name)) [
      | inl same ↦ rw same (
          ap (λ ts. record w { status = []; traits = ts })
            (wipe_traits-patch_trait old.traits w.traits))
      | inr other ↦ rw other refl
    ]

wipe-patch_workload :
    (olds : List WorkloadStatus) (w : WorkloadStatus) → wipe (patch_workload olds w) ≡ wipe w
unfolding patch_workload
wipe-patch_workload [] w = refl
wipe-patch_workload (old ∷ olds) w =
    wipe-patch_workload olds (patch_from old w) ∙ wipe-patch_from old w

same_ref_refl : (r : TypedReference) → same_ref r r ≡ true
unfolding same_ref
same_ref_refl r = ground (arith, ==_refl r.api_version, ==_refl r.kind, ==_refl r.name)

==_comm : (s t : GoString) → (s == t) ≡ (t == s)
==_comm s t = ground (arith, ==_iff s t, ==_iff t s)

same_ref_comm : (a b : TypedReference) → same_ref a b ≡ same_ref b a
unfolding same_ref
same_ref_comm a b =
    ground
      (arith, ==_comm a.api_version b.api_version, ==_comm a.kind b.kind, ==_comm a.name b.name)

-- The traits of a workload have references that differ.
abbrev pub DistinctTraits : List WorkloadTrait → Type 0
DistinctTraits [] = Unit
DistinctTraits (t ∷ ts) = All (λ u. same_ref u.reference t.reference ≡ false) ts × DistinctTraits ts

patch_trait_other :
    (ts : List WorkloadTrait) (tr : WorkloadTrait)
    → All (λ u. same_ref u.reference tr.reference ≡ false) ts
    → patch_trait ts tr ≡ tr
unfolding patch_trait
patch_trait_other [] tr h = refl
patch_trait_other (t ∷ ts) tr h = rw h.0 (patch_trait_other ts tr h.1)

restore_status :
    (s : GoString) (tr : WorkloadTrait)
    → s ≡ tr.status
    → (if true && not (is_empty s) then record tr { status = s } else record tr { status = [] })
      ≡ tr
restore_status [] tr e = ap (λ x. record tr { status = x }) e
restore_status (c ∷ s) tr e = ap (λ x. record tr { status = x }) e

restore_trait :
    (ts : List WorkloadTrait) (tr : WorkloadTrait)
    → All (λ u. same_ref u.reference tr.reference ≡ false) ts
    → patch_trait (tr ∷ ts) (wipe_trait tr) ≡ tr
unfolding patch_trait wipe_trait
restore_trait ts tr h =
    rw (same_ref_refl tr.reference)
      (ap (patch_trait ts) (restore_status tr.status tr refl) ∙ patch_trait_other ts tr h)

patch_trait-wipe_trait :
    (ts : List WorkloadTrait) (tr : WorkloadTrait)
    → DistinctTraits ts
    → Mem tr ts
    → patch_trait ts (wipe_trait tr) ≡ tr
unfolding patch_trait wipe_trait
patch_trait-wipe_trait [] tr d m = absurd m
patch_trait-wipe_trait (t ∷ ts) tr d (inl e) =
    subst (λ u. patch_trait (u ∷ ts) (wipe_trait tr) ≡ tr) e
      (restore_trait ts tr
        (subst (λ u. All (λ v. same_ref v.reference u.reference ≡ false) ts) (sym e) d.0))
patch_trait-wipe_trait (t ∷ ts) tr d (inr m) = rw (same_ref_comm t.reference tr.reference) (
    rw (Mem_of_All (λ u. same_ref u.reference t.reference ≡ false) tr ts d.0 m)
      (patch_trait-wipe_trait ts tr d.1 m))

-- The workloads have revision names that differ, and each has traits that differ.
abbrev pub DistinctWorkloads : List WorkloadStatus → Type 0
DistinctWorkloads [] = Unit
DistinctWorkloads (w ∷ ws) =
    All (λ u. (u.component_revision_name == w.component_revision_name) ≡ false) ws
    × DistinctTraits w.traits
    × DistinctWorkloads ws

patch_workload_other :
    (olds : List WorkloadStatus) (w : WorkloadStatus)
    → All (λ u. (u.component_revision_name == w.component_revision_name) ≡ false) olds
    → patch_workload olds w ≡ w
unfolding patch_workload patch_from
patch_workload_other [] w h = refl
patch_workload_other (o ∷ olds) w h =
    rw (==_comm w.component_revision_name o.component_revision_name)
      (rw h.0 (patch_workload_other olds w h.1))

nonempty_or : (s : GoString) → (if not (is_empty s) then s else []) ≡ s
nonempty_or [] = refl
nonempty_or (c ∷ s) = refl

patch_from-wipe : (w : WorkloadStatus) → DistinctTraits w.traits → patch_from w (wipe w) ≡ w
unfolding patch_from wipe
patch_from-wipe w d = rw (==_refl w.component_revision_name) (
    ap₂ (λ st ts. record w { status = st; traits = ts }) (nonempty_or w.status)
      (map-map_self (patch_trait w.traits) wipe_trait w.traits
        (λ t m. patch_trait-wipe_trait w.traits t d m)))

patch_from_other :
    (o w : WorkloadStatus)
    → (w.component_revision_name == o.component_revision_name) ≡ false
    → patch_from o (wipe w) ≡ wipe w
unfolding patch_from wipe
patch_from_other o w e = rw e refl

patch_workload-wipe :
    (olds : List WorkloadStatus) (w : WorkloadStatus)
    → DistinctWorkloads olds
    → Mem w olds
    → patch_workload olds (wipe w) ≡ w
unfolding patch_workload
patch_workload-wipe [] w d m = absurd m
patch_workload-wipe (o ∷ olds) w d (inl e) =
    subst (λ u. patch_workload (u ∷ olds) (wipe w) ≡ w) e
      (ap (patch_workload olds)
          (patch_from-wipe w (subst (λ u. DistinctTraits u.traits) (sym e) d.1))
        ∙ patch_workload_other olds w (
            subst
              (λ v.
                All (λ u. (u.component_revision_name == v.component_revision_name) ≡ false) olds)
              (sym e) d.0))
patch_workload-wipe (o ∷ olds) w d (inr m) =
    ap (patch_workload olds) (
      patch_from_other o w (
        Mem_of_All (λ u. (u.component_revision_name == o.component_revision_name) ≡ false) w olds
          d.0 m))
    ∙ patch_workload-wipe olds w d.2 m

-- Patching changes nothing but the statuses.
pub patch_extra_status_field_keeps :
    (ws olds : List WorkloadStatus) → map wipe (patch_extra_status_field ws olds) ≡ map wipe ws
unfolding patch_extra_status_field
patch_extra_status_field_keeps [] olds = refl
patch_extra_status_field_keeps (w ∷ ws) olds =
    ap₂ (λ v vs. v ∷ vs) (wipe-patch_workload olds w) (patch_extra_status_field_keeps ws olds)

-- After a reconciliation that renders the same workloads every status is back, of the workloads
-- and of their traits, if the revision names differ and the references of each workload's traits.
pub patch_extra_status_field-wipe :
    (olds : List WorkloadStatus)
    → DistinctWorkloads olds
    → patch_extra_status_field (map wipe olds) olds ≡ olds
unfolding patch_extra_status_field
patch_extra_status_field-wipe olds d =
    map-map_self (patch_workload olds) wipe olds (λ w m. patch_workload-wipe olds w d m)
