-- ===== src/HealthScope/Peers/Overall.antt =====
-- healthscope.go: the revision that a name carries, and when peers are unhealthy together.
use mathlib.Core.List.{Permᴰ}
use mathlib.Core.List.Permᴰ
use oam_kubernetes_runtime.Base.{
  ℕ, ◌<◌, GoString, codes, ◌==◌, ==_iff, Bool-cases, List, [], ◌∷◌, ◌++◌, append_assoc, join,
  print_int64, print_int64-Free, parse_int64-print_int64, after_last-append, sign_bit, Sorter, All,
  All-perm, ◌≡◌, ◌≢◌, ◌↔◌, refl, arith, inl, inr,
}
use oam_kubernetes_runtime.Revision.{construct_revision_name}
use oam_kubernetes_runtime.HealthScope.{WorkloadHealthCondition, status_unhealthy, status_unknown}
use oam_kubernetes_runtime.HealthScope.Peers.{
  extract_revision, peer_key, any_unhealthy, report, merge_sorted, merge_peer_workloads_conditions,
}

-- The revision number that the component handler puts in a name is the one that is read back, as
-- long as it is not negative.
pub extract_revision-construct_revision_name :
    (component_name : GoString) (revision : ℕ)
    → revision < sign_bit
    → extract_revision (construct_revision_name component_name revision) ≡ revision
unfolding extract_revision construct_revision_name join
extract_revision-construct_revision_name c r h =
    rw (← append_assoc c (codes "-") (codes "v" ++ print_int64 r)) (
      rw
        (after_last-append b'v' (c ++ codes "-") (print_int64 r)
          (print_int64-Free r b'v' h (inr (omega arith))))
        (parse_int64-print_int64 r h))

pub NotUnhealthy : WorkloadHealthCondition → Type 0
NotUnhealthy hc = hc.health_status ≢ status_unhealthy

any_unhealthy_iff :
    (status : GoString) (hcs : List WorkloadHealthCondition)
    → (any_unhealthy status hcs ≢ status_unhealthy)
      ↔ ((status ≢ status_unhealthy) × All NotUnhealthy hcs)
unfolding any_unhealthy NotUnhealthy
any_unhealthy_iff status [] = (λ h. (h, tt), λ h. h.0)
any_unhealthy_iff status (hc ∷ hcs) = elim (Bool-cases (hc.health_status == status_unhealthy)) [
  | inl e ↦ rw e (
    λ h. absurd (((any_unhealthy_iff status_unhealthy hcs).0 h).0 refl),
    λ h. absurd (h.1.0 ((==_iff hc.health_status status_unhealthy).0 e)),
  )
  | inr e ↦ rw e (
    λ h.
        let k = (any_unhealthy_iff status hcs).0 h in
        (
          k.0,
          (
            λ same. absurd (ground (arith, e, (==_iff hc.health_status status_unhealthy).1 same)),
            k.1,
          ),
        ),
    λ h. (any_unhealthy_iff status hcs).1 (h.0, h.1.1),
  )
]

any_unhealthy-eq :
    (status : GoString) (hcs : List WorkloadHealthCondition)
    → All NotUnhealthy hcs
    → any_unhealthy status hcs ≡ status
unfolding any_unhealthy NotUnhealthy
any_unhealthy-eq status [] h = refl
any_unhealthy-eq status (hc ∷ hcs) h = elim (Bool-cases (hc.health_status == status_unhealthy)) [
  | inl e ↦ absurd (h.0 ((==_iff hc.health_status status_unhealthy).0 e))
  | inr e ↦ rw e (any_unhealthy-eq status hcs h.1)
]

report-health_status :
    (hcs : List WorkloadHealthCondition) (basic : WorkloadHealthCondition)
    → (report hcs basic).health_status ≡ basic.health_status
unfolding report
report-health_status [] basic = refl
report-health_status (hc ∷ hcs) basic = elim (Bool-cases (basic.health_status == status_unknown)) [
  | inl e ↦ rw e refl
  | inr e ↦ rw e refl
]

module _ (sorter : Sorter peer_key) where
  merged-health_status :
      (hc : WorkloadHealthCondition) (hcs : List WorkloadHealthCondition)
      (basic : WorkloadHealthCondition)
      → (merge_peer_workloads_conditions sorter (hc ∷ hcs) basic).health_status
        ≡ any_unhealthy basic.health_status (sorter.sort ((hc ∷ hcs) ++ (basic ∷ [])))
  unfolding merge_peer_workloads_conditions merge_sorted
  merged-health_status hc hcs basic =
      report-health_status (sorter.sort ((hc ∷ hcs) ++ (basic ∷ []))) _

  -- The merged condition is unhealthy exactly if the workload's own condition or that of a peer is,
  -- however the sort orders equal revisions; else the workload keeps its status.
  pub merge_peer_workloads_conditions-unhealthy :
      (hcs : List WorkloadHealthCondition) (basic : WorkloadHealthCondition)
      → let merged = merge_peer_workloads_conditions sorter hcs basic in
        ((merged.health_status ≢ status_unhealthy) ↔ All NotUnhealthy (basic ∷ hcs))
        × (All NotUnhealthy (basic ∷ hcs) → merged.health_status ≡ basic.health_status)
  unfolding merge_peer_workloads_conditions NotUnhealthy
  merge_peer_workloads_conditions-unhealthy [] basic = ((λ h. (h, tt), λ h. h.0), λ h. refl)
  merge_peer_workloads_conditions-unhealthy (hc ∷ hcs) basic =
      let p =
        Permᴰ.trans (Permᴰ.append_comm (basic ∷ []) (hc ∷ hcs))
          (sorter.sort-perm ((hc ∷ hcs) ++ (basic ∷ []))) in
      let sorted = sorter.sort ((hc ∷ hcs) ++ (basic ∷ [])) in
      rw (merged-health_status hc hcs basic) (
        (
          λ h.
              All-perm NotUnhealthy (Permᴰ.symm p)
                ((any_unhealthy_iff basic.health_status sorted).0 h).1,
          λ k. (any_unhealthy_iff basic.health_status sorted).1 (k.0, All-perm NotUnhealthy p k),
        ),
        λ k. any_unhealthy-eq basic.health_status sorted (All-perm NotUnhealthy p k),
      )
