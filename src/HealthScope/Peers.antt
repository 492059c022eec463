-- ===== src/HealthScope/Peers.antt =====
-- healthscope.go, extractRevision and MergePeerWorkloadsConditions: one condition for all the
-- workloads of a component that is versioned.
pub mod Overall
use oam_kubernetes_runtime.Base.{
  ℕ, ◌-◌, GoString, codes, ◌==◌, Bool, true, false, ◌&&◌, List, [], ◌∷◌, ◌++◌, if◌then◌else◌,
  after_last, parse_int64, signed_key, word, Sorter,
}
use oam_kubernetes_runtime.HealthScope.{WorkloadHealthCondition, status_unhealthy, status_unknown}

-- strconv.ParseInt on the text after the last v; the value beside an error counts.
unfoldable pub extract_revision : GoString → ℕ
extract_revision c = parse_int64 (after_last b'v' c)

-- Less: the higher revision comes first.
unfoldable pub peer_key : WorkloadHealthCondition → ℕ
peer_key hc = (word - 1) - signed_key (extract_revision hc.target_workload.name)

any_unhealthy : GoString → List WorkloadHealthCondition → GoString
any_unhealthy status [] = status
any_unhealthy status (hc ∷ hcs) =
    any_unhealthy (if hc.health_status == status_unhealthy then status_unhealthy else status) hcs

statuses : GoString → List WorkloadHealthCondition → GoString
statuses text [] = text
statuses text (hc ∷ hcs) =
    statuses (text ++ (codes " " ++ (hc.target_workload.name ++ (codes ":" ++ hc.workload_status))))
      hcs

-- The first of the list is never skipped, and of the others those that have no replica.
diagnoses : Bool → GoString → List WorkloadHealthCondition → GoString
diagnoses first text [] = text
diagnoses first text (hc ∷ hcs) =
    diagnoses false
      (if first
        then text ++ (codes " " ++ (hc.target_workload.name ++ (codes ":" ++ hc.diagnosis)))
        else if hc.diagnosis == codes "Ready:0/0 "
        then text
        else text ++ (codes " " ++ (hc.target_workload.name ++ (codes ":" ++ hc.diagnosis))))
      hcs

report : List WorkloadHealthCondition → WorkloadHealthCondition → WorkloadHealthCondition
unfolding statuses diagnoses
report [] basic = basic
report (hc ∷ hcs) basic =
    if basic.health_status == status_unknown
    then record basic {
      workload_status = statuses (hc.target_workload.name ++ (codes ":" ++ hc.workload_status)) hcs;
    }
    else record basic {
      diagnosis = diagnoses true (hc.target_workload.name ++ (codes ":" ++ hc.diagnosis)) hcs;
    }

merge_sorted : List WorkloadHealthCondition → WorkloadHealthCondition → WorkloadHealthCondition
unfolding any_unhealthy report
merge_sorted sorted basic =
    report sorted (record basic { health_status = any_unhealthy basic.health_status sorted })

unfoldable pub merge_peer_workloads_conditions :
    Sorter peer_key
    → List WorkloadHealthCondition
    → WorkloadHealthCondition
    → WorkloadHealthCondition
unfolding merge_sorted
merge_peer_workloads_conditions sorter [] basic = basic
merge_peer_workloads_conditions sorter (hc ∷ hcs) basic =
    merge_sorted (sorter.sort ((hc ∷ hcs) ++ (basic ∷ []))) basic
