-- ===== src/Reconcile/Status.antt =====
-- applicationconfiguration.go, patchExtraStatusField and updateObservedGeneration: the fields of
-- the status that other controllers fill survive a reconciliation.
pub mod Survival
use oam_kubernetes_runtime.Base.{
  GoString, ◌==◌, is_empty, Bool, true, false, not, ◌&&◌, List, [], ◌∷◌, map, if◌then◌else◌,
}
use oam_kubernetes_runtime.Api.{
  TypedReference, WorkloadTrait, WorkloadStatus, ApplicationConfiguration,
}

unfoldable pub same_ref : TypedReference → TypedReference → Bool
same_ref a b = a.api_version == b.api_version && a.kind == b.kind && a.name == b.name

unfoldable pub patch_trait : List WorkloadTrait → WorkloadTrait → WorkloadTrait
patch_trait [] tr = tr
patch_trait (t ∷ ts) tr = patch_trait ts (
    if same_ref t.reference tr.reference && not (is_empty t.status)
    then record tr { status = t.status }
    else tr)

-- The effect of one old workload status on a new one.
unfoldable pub patch_from : WorkloadStatus → WorkloadStatus → WorkloadStatus
patch_from old w =
    if w.component_revision_name == old.component_revision_name
    then record w {
      status = if not (is_empty old.status) then old.status else w.status;
      traits = map (patch_trait old.traits) w.traits;
    }
    else w

unfoldable pub patch_workload : List WorkloadStatus → WorkloadStatus → WorkloadStatus
patch_workload [] w = w
patch_workload (old ∷ olds) w = patch_workload olds (patch_from old w)

unfoldable pub patch_extra_status_field :
    List WorkloadStatus → List WorkloadStatus → List WorkloadStatus
patch_extra_status_field workloads olds = map (patch_workload olds) workloads

unfoldable pub update_observed_generation : ApplicationConfiguration → ApplicationConfiguration
update_observed_generation ac = record ac {
  status = record ac.status { observed_generation = ac.metadata.generation };
}
