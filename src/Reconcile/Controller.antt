-- ===== src/Reconcile/Controller.antt =====
-- applicationconfiguration.go, Reconcile: one pass over an application configuration. W is the state
-- of the cluster; logs, events and the timeout are left out. A duration is in nanoseconds.
pub mod Kept
pub mod Recorded
pub mod Written
pub mod Collected
pub mod Tests
use oam_kubernetes_runtime.Base.{
  ℕ, ◌*◌, GoString, codes, ◌==◌, is_nil, Bool, true, false, not, Option, none, some, List, [], ◌∷◌,
  ◌++◌, map, if◌then◌else◌, Result, ok, err, ◌>>=◌,
}
use oam_kubernetes_runtime.Api.{
  Condition, reconcile_success, reconcile_error, TypedReference, ApplicationConfiguration,
  ApplicationConfigurationStatus, WorkloadStatus, HistoryWorkload, UnsatisfiedDependency,
}
use oam_kubernetes_runtime.Api.Fieldpath.{Got, found, missing, failed}
use oam_kubernetes_runtime.Api.Value.{Unstructured}
use oam_kubernetes_runtime.Workload
use oam_kubernetes_runtime.Workload.{Workload}
use oam_kubernetes_runtime.Reconcile.Status.{patch_extra_status_field, update_observed_generation}
use oam_kubernetes_runtime.Reconcile.Finalizers.{Finalizers, register_finalizers}

abbrev second : ℕ
second = 1000000000

abbrev pub depend_check_wait : ℕ
depend_check_wait = 10 * second

abbrev pub short_wait : ℕ
short_wait = 30 * second

-- What a hook does: the configuration and the cluster afterwards, and what it returns.
pub record HookOutcome (W : Type 0) : Type 0 where
  pub ac : ApplicationConfiguration
  pub world : W
  pub requeue : ℕ
  pub failure : Option GoString

-- How a deletion ends; an object that is missing is no failure.
pub data Removal (W : Type 0) : Type 0 where
  removed : W → Removal W
  absent : Removal W
  refused : GoString → Removal W

-- OAMApplicationReconciler: the client's calls, where a granted update returns the object of the server,
-- and the interfaces ComponentRenderer, WorkloadApplicator, GarbageCollector and ControllerHooks.
-- The options of Apply, with applyOnceOnly among them, are part of `apply`.
pub record Reconciler (W : Type 0) : Type 0 where
  pub get : GoString → GoString → W → Got ApplicationConfiguration
  pub update : ApplicationConfiguration → W → Result GoString (ApplicationConfiguration × W)
  pub update_status : ApplicationConfiguration → W → Result GoString (ApplicationConfiguration × W)
  pub delete : Unstructured → W → Removal W
  pub list : GoString → GoString → GoString → GoString → W → Result GoString (List Unstructured)
  pub render :
      ApplicationConfiguration → W → Result GoString (List Workload × List UnsatisfiedDependency)
  pub apply : List WorkloadStatus → List Workload → W → Option GoString × W
  pub finalize : ApplicationConfiguration → W → Option GoString × ApplicationConfiguration × W
  pub gc : GoString → List WorkloadStatus → List Workload → List Unstructured
  pub pre_hooks : List (ApplicationConfiguration → W → HookOutcome W)
  pub post_hooks : List (ApplicationConfiguration → W → HookOutcome W)
  pub finalizers : Finalizers
  pub long_wait : ℕ

-- What Reconcile returns: the time after which to repeat, 0 for none, and the error.
pub record Outcome (W : Type 0) : Type 0 where
  pub requeue : ℕ
  pub failure : Option GoString
  pub world : W

-- A pass that ended early: the text of the condition, and what it had done.
pub record Failed (W : Type 0) : Type 0 where
  pub text : GoString
  pub ac : ApplicationConfiguration
  pub world : W
  pub requeue : ℕ

pub record Completed (W : Type 0) : Type 0 where
  pub ac : ApplicationConfiguration
  pub world : W
  pub requeue : ℕ

-- errors.Wrap(err, text).Error()
abbrev pub wrap : GoString → GoString → GoString
wrap text e = text ++ (codes ": " ++ e)

abbrev pub with_condition : Condition → ApplicationConfiguration → ApplicationConfiguration
with_condition c ac = record ac { status = record ac.status { synced = some c } }

abbrev pub with_dependency :
    List UnsatisfiedDependency → ApplicationConfiguration → ApplicationConfiguration
with_dependency unsatisfied ac = record ac {
  status = record ac.status { dependency = unsatisfied };
}

history_of : GoString → List Unstructured → List HistoryWorkload
history_of current [] = []
history_of current (v ∷ vs) =
    let rest = history_of current vs in
    if v.name == current
    then rest
    else record {
      revision = v.name;
      reference = record { api_version = v.api_version; kind = v.kind; name = v.name; uid = v.uid };
    }
      ∷ rest

listed_history : GoString → Result GoString (List Unstructured) → List HistoryWorkload
unfolding history_of
listed_history current (err e) = []
listed_history current (ok items) = history_of current items

module _ {W : Type 0} (r : Reconciler W) where
  -- The earlier revisions of the workloads that are versioned, which are still there.
  unfoldable pub history : GoString → List Workload → W → List HistoryWorkload
  unfolding listed_history
  history app [] w = []
  history app (wl ∷ wls) w =
      let rest = history app wls w in
      if not wl.revision_enabled
      then rest
      else listed_history wl.component_revision_name
          (r.list wl.workload.kind wl.workload.api_version app wl.component_name w)
        ++ rest

  -- updateStatus
  unfoldable pub updated_status :
      ApplicationConfiguration → List WorkloadStatus → List Workload → W → ApplicationConfiguration
  updated_status ac olds wls w = record ac {
    status = record ac.status {
      workloads = patch_extra_status_field (map Workload.status wls) olds;
      history_workloads = history ac.metadata.name wls w;
      synced = some reconcile_success;
    };
  }

  unfoldable pub run_pre_hooks :
      List (ApplicationConfiguration → W → HookOutcome W)
      → ApplicationConfiguration
      → W
      → Result (Failed W) (ApplicationConfiguration × W)
  run_pre_hooks [] ac w = ok (ac, w)
  run_pre_hooks (hook ∷ hooks) ac w =
      let o = hook ac w in
      elim o.failure [
        | none ↦ run_pre_hooks hooks o.ac o.world
        | some e ↦ err (record {
          text = wrap (codes "failed to execute pre-hooks") e;
          ac = o.ac;
          world = o.world;
          requeue = o.requeue;
        })
      ]

  abbrev failed_short : GoString → GoString → ApplicationConfiguration → W → Failed W
  failed_short text e ac w = record { text = wrap text e; ac = ac; world = w; requeue = short_wait }

  unfoldable pub rendered :
      ApplicationConfiguration
      → W
      → Result GoString (List Workload × List UnsatisfiedDependency)
      → Result (Failed W) (List Workload × List UnsatisfiedDependency)
  rendered ac w (ok p) = ok p
  rendered ac w (err e) = err (failed_short (codes "cannot render components") e ac w)

  unfoldable pub applied : ApplicationConfiguration → Option GoString × W → Result (Failed W) W
  applied ac (none, w) = ok w
  applied ac (some e, w) = err (failed_short (codes "cannot apply components") e ac w)

  -- The loop over the garbage.
  unfoldable pub collect : ApplicationConfiguration → List Unstructured → W → Result (Failed W) W
  collect ac [] w = ok w
  collect ac (e ∷ es) w = elim (r.delete e w) [
    | removed w' ↦ collect ac es w'
    | absent ↦ collect ac es w
    | refused x ↦ err (failed_short (codes "cannot garbage collect components") x ac w)
  ]

  -- From the application of the rendered workloads to the new status.
  unfoldable pub apply_and_collect :
      List WorkloadStatus
      → ApplicationConfiguration
      → ℕ
      → List Workload
      → W
      → Result (Failed W) (Completed W)
  unfolding applied
  apply_and_collect olds ac wait_time wls w =
      applied ac (r.apply ac.status.workloads wls w) >>= λ w₁.
      collect ac (r.gc ac.metadata.namespace ac.status.workloads wls) w₁ >>= λ w₂.
      ok (record { ac = updated_status ac olds wls w₂; world = w₂; requeue = wait_time })

  -- The dependencies that rendering reports, if there are any, and the time to wait then.
  unfoldable pub render_and_apply :
      List WorkloadStatus → ApplicationConfiguration → W → Result (Failed W) (Completed W)
  unfolding rendered apply_and_collect
  render_and_apply olds ac w = rendered ac w (r.render ac w) >>= λ (wls, unsatisfied).
      if is_nil unsatisfied
      then apply_and_collect olds ac r.long_wait wls w
      else apply_and_collect olds (with_dependency unsatisfied ac) depend_check_wait wls w

  -- The pass from the pre-hooks to the new status. `olds` are the statuses that it started from.
  unfoldable pub attempt :
      List WorkloadStatus → ApplicationConfiguration → W → Result (Failed W) (Completed W)
  unfolding render_and_apply
  attempt olds ac w = run_pre_hooks r.pre_hooks ac w >>= λ (ac₁, w₁).
      render_and_apply olds (with_dependency [] ac₁) w₁

  -- Status().Update(ctx, ac): the configuration afterwards, the cluster and the error.
  unfoldable pub answered :
      ApplicationConfiguration
      → W
      → Result GoString (ApplicationConfiguration × W)
      → ApplicationConfiguration × W × Option GoString
  answered ac w (ok (ac', w')) = (ac', w', none)
  answered ac w (err e) =
      (ac, w, some (wrap (codes "cannot update application configuration status") e))

  unfoldable pub write_status :
      ApplicationConfiguration → W → ApplicationConfiguration × W × Option GoString
  unfolding answered
  write_status ac w = answered ac w (r.update_status ac w)

  -- The return with the error of the last update.
  unfoldable pub last_write : ℕ → ApplicationConfiguration → W → Outcome W
  unfolding write_status
  last_write requeue ac w =
      let (_, w', e) = write_status ac w in record { requeue = requeue; failure = e; world = w' }

  -- The deferred function.
  unfoldable pub run_post_hooks :
      List (ApplicationConfiguration → W → HookOutcome W)
      → ℕ
      → ApplicationConfiguration
      → W
      → Outcome W
  unfolding last_write
  run_post_hooks [] requeue ac w = last_write requeue ac w
  run_post_hooks (hook ∷ hooks) requeue ac w =
      let o = hook ac w in
      elim o.failure [
        | none ↦ run_post_hooks hooks requeue o.ac o.world
        | some e ↦
            last_write o.requeue
              (with_condition (reconcile_error (wrap (codes "failed to execute post-hooks") e))
                o.ac)
              o.world
      ]

  -- A failed pass has its condition written before the deferred function runs.
  unfoldable pub settle : Result (Failed W) (Completed W) → Completed W
  unfolding write_status
  settle (ok c) = c
  settle (err f) =
      let (ac, w, _) = write_status (with_condition (reconcile_error f.text) f.ac) f.world in
      record { ac = ac; world = w; requeue = f.requeue }

  unfoldable pub run_live : ApplicationConfiguration → W → Outcome W
  unfolding attempt settle run_post_hooks
  run_live ac w =
      let c = settle (attempt ac.status.workloads ac w) in
      run_post_hooks r.post_hooks c.requeue (update_observed_generation c.ac) c.world

  -- An update of the configuration itself, whose error has the text of a status update.
  updated : W → Result GoString (ApplicationConfiguration × W) → Outcome W
  updated w (ok (ac, w')) = record { requeue = 0; failure = none; world = w' }
  updated w (err e) = record {
    requeue = 0;
    failure = some (wrap (codes "cannot update application configuration status") e);
    world = w;
  }

  finalized : Option GoString × ApplicationConfiguration × W → Outcome W
  unfolding last_write updated
  finalized (some e, ac, w) =
      last_write 0
        (with_condition (reconcile_error (wrap (codes "failed to finalize workloads") e)) ac) w
  finalized (none, ac, w) = updated w (r.update ac w)

  registered : W → ApplicationConfiguration × Bool → Outcome W
  unfolding run_live updated
  registered w (ac, true) = updated w (r.update ac w)
  registered w (ac, false) = run_live ac w

  unfoldable pub reconcile_ac : ApplicationConfiguration → W → Outcome W
  unfolding registered finalized
  reconcile_ac ac w =
      if ac.metadata.deleting
      then finalized (r.finalize ac w)
      else registered w (register_finalizers r.finalizers ac)

  reconcile_got : W → Got ApplicationConfiguration → Outcome W
  unfolding reconcile_ac
  reconcile_got w (found ac) = reconcile_ac ac w
  reconcile_got w missing = record { requeue = 0; failure = none; world = w }
  reconcile_got w (failed e) = record {
    requeue = 0;
    failure = some (wrap (codes "cannot get application configuration") e);
    world = w;
  }

  -- Reconcile
  unfoldable pub reconcile : GoString → GoString → W → Outcome W
  unfolding reconcile_got
  reconcile namespace name w = reconcile_got w (r.get namespace name w)
