-- ===== src/Apply.antt =====
-- pkg/controller/v1alpha2/applicationconfiguration/apply.go, Apply and Finalize: what a
-- reconciliation changes in the cluster. W is the state of the cluster.
pub mod Scopes
pub mod Patch
pub mod Data
pub mod Finalization
pub mod Waiting
pub mod Tests
use oam_kubernetes_runtime.Base.{
  GoString, Bool, true, false, not, List, [], ◌∷◌, if◌then◌else◌, Result, ok, err, ◌>>=◌,
}
use oam_kubernetes_runtime.Api.{ObjectMeta, WorkloadStatus, ApplicationConfiguration}
use oam_kubernetes_runtime.Api.Value.{Unstructured}
use oam_kubernetes_runtime.Workload.{Trait, Workload, reference_to}
use oam_kubernetes_runtime.Apply.Scopes.{
  ScopeError, ScopeClient, apply_scope, dereference_scope, dereference_all_scopes,
}
use oam_kubernetes_runtime.Apply.Data.{DataClient, apply_input_ref, apply_output_ref}
use oam_kubernetes_runtime.Apply.Patch.{
  Applied, done, generation_unchanged, refused, DataError, Json,
}
use oam_kubernetes_runtime.Reconcile.Finalizers.{Finalizers, workload_scope_finalizer}

pub data ApplyError : Type 0 where
  no_workloads apply_workload apply_trait : ApplyError
  data_error : DataError → ApplyError
  scope_error : ScopeError → ApplyError

data_step : {A : Type 0} → Result DataError A → Result ApplyError A
data_step (ok a) = ok a
data_step (err e) = err (data_error e)

scope_step : {A : Type 0} → Result ScopeError A → Result ApplyError A
scope_step (ok a) = ok a
scope_step (err e) = err (scope_error e)

-- An unchanged generation skips an object and does not stop the loop.
after : {W : Type 0} → ApplyError → Applied W → Result ApplyError W
after e (done w) = ok w
after e (generation_unchanged w) = ok w
after e refused = err e

module _ {W : Type 0} (scopes : ScopeClient W) (data_client : DataClient W) where
  apply_trait_step : GoString → Trait → W → Result ApplyError W
  unfolding after data_step
  apply_trait_step ns tr w =
      (if tr.has_dep
        then ok (tr.object, w)
        else (data_step (apply_input_ref data_client w tr.object tr.data_inputs ns) >>= λ object.
            after apply_trait (data_client.updating_apply w object) >>= λ w'. ok (object, w')))
      >>= λ (object, w'). data_step (apply_output_ref data_client w' object tr.data_outputs ns)

  apply_traits : GoString → List Trait → W → Result ApplyError W
  unfolding apply_trait_step
  apply_traits ns [] w = ok w
  apply_traits ns (tr ∷ trs) w = apply_trait_step ns tr w >>= λ w'. apply_traits ns trs w'

  apply_scopes : Unstructured → List Unstructured → W → Result ApplyError W
  unfolding scope_step
  apply_scopes workload [] w = ok w
  apply_scopes workload (s ∷ ss) w =
      scope_step (apply_scope scopes w s (reference_to workload)) >>= λ w'.
      apply_scopes workload ss w'

  -- One round of the loop; the workload as its data inputs have changed it.
  apply_workload_step : GoString → Workload → W → Result ApplyError (Unstructured × W)
  unfolding apply_traits apply_scopes after data_step
  apply_workload_step ns wl w =
      (if wl.has_dep
        then ok (wl.workload, w)
        else (data_step (apply_input_ref data_client w wl.workload wl.data_inputs ns) >>= λ object.
            after apply_workload (data_client.patching_apply w object) >>= λ w'. ok (object, w')))
      >>= λ (object, w').
          data_step (apply_output_ref data_client w' object wl.data_outputs ns) >>= λ w''.
          apply_traits ns wl.traits w'' >>= λ w'''.
          apply_scopes object wl.scopes w''' >>= λ w4. ok (object, w4)

  apply_workloads : GoString → List Workload → W → Result ApplyError (List Workload × W)
  unfolding apply_workload_step
  apply_workloads ns [] w = ok ([], w)
  apply_workloads ns (wl ∷ wls) w = apply_workload_step ns wl w >>= λ (object, w').
      apply_workloads ns wls w' >>= λ (rest, w''). ok (record wl { workload = object } ∷ rest, w'')

  -- workloads.Apply
  unfoldable pub apply : List WorkloadStatus → List Workload → W → Result ApplyError W
  unfolding apply_workloads scope_step
  apply status [] w = err no_workloads
  apply status (wl ∷ wls) w =
      let ns = wl.workload.namespace in
      apply_workloads ns (wl ∷ wls) w >>= λ (applied, w').
      scope_step (dereference_scope scopes ns status applied w')

-- workloads.Finalize
unfoldable pub finalize :
    {W : Type 0}
    → ScopeClient W
    → Finalizers
    → ApplicationConfiguration
    → W
    → Result ScopeError (ApplicationConfiguration × W)
finalize scopes f ac w =
    if f.finalizer_exists ac.metadata workload_scope_finalizer
    then (dereference_all_scopes scopes ac.metadata.namespace ac.status.workloads w >>= λ w'.
        ok (record ac { metadata = f.remove_finalizer ac.metadata workload_scope_finalizer }, w'))
    else ok (ac, w)
