-- ===== src/Reconcile/Tests.antt =====
-- applicationconfiguration.go: the theorems on the status, the garbage and the finalizer at
-- concrete workloads.
use oam_kubernetes_runtime.Base.{
  GoString, codes, ◌==◌, true, false, some, List, [], ◌∷◌, map, keep, All, ◌≡◌, ◌↔◌, ◌⊎◌, refl, any,
  not, has_prefix, ==_refl, arith,
}
use oam_kubernetes_runtime.Api.{WorkloadStatus, WorkloadTrait, ApplicationConfiguration}
use oam_kubernetes_runtime.Api.Value.{Unstructured}
use oam_kubernetes_runtime.Workload.{Workload, status}
use oam_kubernetes_runtime.Util.{
  index, label_oam_resource_type, resource_type_trait, resource_type_workload,
}
use oam_kubernetes_runtime.Samples.{
  sample_object, sample_reference, sample_status, sample_workload, sample_configuration,
  sample_item,
}
use oam_kubernetes_runtime.Reconcile.Gc.{eligible, applied_refs, is_revision_workload}
use oam_kubernetes_runtime.Reconcile.Gc.Safety.{
  candidates, RefersTo, eligible-status, eligible-not_applied,
}
use oam_kubernetes_runtime.Reconcile.Once.{
  apply_once_only, generation_unchanged, SameOrigin, apply_once_only-unchanged,
}
use oam_kubernetes_runtime.Reconcile.Finalizers.{Finalizers}
use oam_kubernetes_runtime.Reconcile.Status.{patch_extra_status_field}
use oam_kubernetes_runtime.Reconcile.Status.Survival.{
  wipe, DistinctWorkloads, patch_extra_status_field-wipe,
}

abbrev scaler : WorkloadTrait
scaler = record {
  status = codes "scaled";
  reference = sample_reference (codes "scaler");
  message = [];
}

abbrev statuses : List WorkloadStatus
statuses = sample_status (codes "front") (scaler ∷ []) [] ∷ sample_status (codes "back") [] [] ∷ []

abbrev workloads : List Workload
workloads = sample_workload (codes "back") [] [] ∷ []

eligible-status_example : eligible (codes "default") (map status workloads) workloads ≡ []
eligible-status_example = eligible-status (codes "default") workloads

no_uids : All (λ r. r.uid ≡ []) (candidates statuses)
unfolding candidates is_revision_workload has_prefix
no_uids = (refl, (refl, (refl, tt)))

eligible-not_applied_example :
    All
      (λ u. All (λ r. ¬ RefersTo r u) (applied_refs workloads))
      (eligible (codes "default") statuses workloads)
eligible-not_applied_example = eligible-not_applied (codes "default") statuses workloads no_uids

abbrev marked : Unstructured
marked = record (sample_object (codes "web")) {
  labels = some ((label_oam_resource_type, resource_type_trait) ∷ []);
}

apply_once_only-unchanged_example : (apply_once_only marked marked ≡ generation_unchanged) ↔ (
    ((index marked.labels label_oam_resource_type ≡ resource_type_workload)
      ⊎ (index marked.labels label_oam_resource_type ≡ resource_type_trait))
    × SameOrigin marked marked)
apply_once_only-unchanged_example = apply_once_only-unchanged marked marked

pub any-head : (f : GoString) (fs : List GoString) → any (λ g. g == f) (f ∷ fs) ≡ true
unfolding any
any-head f fs = ground (arith, ==_refl f)

pub any-keep_other :
    (f : GoString) (fs : List GoString) → any (λ g. g == f) (keep (λ g. not (g == f)) fs) ≡ false
unfolding any keep
any-keep_other f [] = refl
any-keep_other f (g ∷ fs) = ground (arith, any-keep_other f fs)

-- The finalizers as the list that the metadata has of them.
abbrev pub listed : Finalizers
listed = record {
  finalizer_exists = λ m f. any (λ g. g == f) m.finalizers;
  add_finalizer = λ m f. record m { finalizers = f ∷ m.finalizers };
  remove_finalizer = λ m f. record m { finalizers = keep (λ g. not (g == f)) m.finalizers };
  exists-add = λ m f. any-head f m.finalizers;
  exists-remove = λ m f. any-keep_other f m.finalizers;
}

abbrev scoped : ApplicationConfiguration
scoped =
    sample_configuration
      (record (sample_item (codes "web") []) {
        scopes = record { scope_reference = sample_reference (codes "health") } ∷ [];
      }
        ∷ [])
      []

distinct : DistinctWorkloads statuses
unfolding ◌==◌
distinct = ((refl, tt), (tt, tt), (tt, tt, tt))

patch_extra_status_field-wipe_example :
    patch_extra_status_field (map wipe statuses) statuses ≡ statuses
patch_extra_status_field-wipe_example = patch_extra_status_field-wipe statuses distinct
