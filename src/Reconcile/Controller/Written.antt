-- ===== src/Reconcile/Controller/Written.antt =====
-- applicationconfiguration.go, Reconcile: the status that a pass leaves behind.
use oam_kubernetes_runtime.Base.{
  some, [], Result, ok, err, Result-cases, All, ◌≡◌, ◌⊎◌, refl, ap, ◌∙◌, inl, inr,
}
use oam_kubernetes_runtime.Api.{
  reconcile_error, ApplicationConfiguration, ApplicationConfigurationStatus,
}
use oam_kubernetes_runtime.Reconcile.Status.{update_observed_generation}
use oam_kubernetes_runtime.Reconcile.Controller.{
  Reconciler, Failed, Completed, with_condition, attempt, answered, write_status, last_write,
  run_post_hooks, settle, run_live,
}
use oam_kubernetes_runtime.Reconcile.Controller.Kept.{HookKeeps, attempt-Keeps}
use oam_kubernetes_runtime.Reconcile.Controller.Recorded.{Recorded, attempt-Recorded}

-- The API server returns an updated status as it was written, and the same generation.
abbrev pub ReturnsStatus : {W : Type 0} → Reconciler W → Type 0
ReturnsStatus {W = W} r =
    (ac ac' : ApplicationConfiguration) (w w' : W)
    → r.update_status ac w ≡ ok (ac', w')
    → (ac'.status ≡ ac.status) × (ac'.metadata.generation ≡ ac.metadata.generation)

module _ {W : Type 0} (r : Reconciler W) where
  -- What a status update leaves in the configuration.
  write_status-keeps :
      (ac : ApplicationConfiguration) (w : W)
      → ReturnsStatus r
      → (write_status r ac w).0.status ≡ ac.status
  unfolding write_status answered
  write_status-keeps ac w returns = elim (Result-cases (r.update_status ac w)) [
    | inl (p, e) ↦ rw (e, write_status) (returns ac p.0 w p.1 e).0
    | inr (x, e) ↦ rw (e, write_status) refl
  ]

  -- How a pass ended: early, with the recorded workloads kept and the error as condition; or with what
  -- it has rendered recorded. Here c is what the last status update writes.
  abbrev pub EndsPass : ApplicationConfiguration → W → Completed W → Type 0
  EndsPass ac w c =
      ((f : Failed W) × (attempt r ac.status.workloads ac w ≡ err f)
        × (c.ac.status.workloads ≡ ac.status.workloads)
        × (c.ac.status.synced ≡ some (reconcile_error f.text))
        × (c.requeue ≡ f.requeue))
      ⊎ Recorded r ac.status.workloads c

  settle-EndsPass :
      (ac : ApplicationConfiguration) (w : W) (a : Result (Failed W) (Completed W))
      → All HookKeeps r.pre_hooks
      → ReturnsStatus r
      → attempt r ac.status.workloads ac w ≡ a
      → EndsPass ac w (settle r a)
  unfolding settle
  settle-EndsPass ac w (ok c) hooks returns h =
      inr (attempt-Recorded r ac.status.workloads ac w c h)
  settle-EndsPass ac w (err f) hooks returns h =
      let kept =
        write_status-keeps (with_condition (reconcile_error f.text) f.ac) f.world returns in
      inl (
        f,
        h,
        ap (λ (s : ApplicationConfigurationStatus). s.workloads) kept
            ∙ attempt-Keeps r ac.status.workloads ac w f hooks h,
        ap (λ (s : ApplicationConfigurationStatus). s.synced) kept,
        refl,
      )

  abbrev observed : Completed W → Completed W
  observed c = record c { ac = update_observed_generation c.ac }

  observed-EndsPass :
      (ac : ApplicationConfiguration) (w : W) (c : Completed W)
      → EndsPass ac w c
      → EndsPass ac w (observed c)
  unfolding update_observed_generation
  observed-EndsPass ac w c (inl h) = inl h
  observed-EndsPass ac w c (inr h) = inr (record {
    at = h.at;
    seen = h.seen;
    workloads = h.workloads;
    unsatisfied = h.unsatisfied;
    is_rendered = h.is_rendered;
    statuses = h.statuses;
    dependency = h.dependency;
    success = h.success;
    wait = h.wait;
  })

  -- A pass over a configuration that is not deleted and has its finalizer, with no post-hooks, ends with
  -- an update of the status whose error is returned, and the observed generation in it is the
  -- configuration's. Either some step has failed: then the workloads recorded before are recorded
  -- still, and the condition and the time to wait are the failure's. Or the pass came to its end: then
  -- the rendered workloads and the unsatisfied dependencies are recorded, the condition is success, and
  -- the next pass is after the short wait for dependencies exactly if one is unsatisfied. This is for
  -- pre-hooks that leave the recorded workloads alone and a server that returns a status as written.
  pub run_live-EndsPass :
      (ac : ApplicationConfiguration) (w : W)
      → r.post_hooks ≡ []
      → All HookKeeps r.pre_hooks
      → ReturnsStatus r
      → (c : Completed W) × (run_live r ac w ≡ last_write r c.requeue c.ac c.world)
        × (c.ac.status.observed_generation ≡ c.ac.metadata.generation)
        × EndsPass ac w c
  unfolding run_live run_post_hooks update_observed_generation
  run_live-EndsPass ac w no_hooks hooks returns =
      let c = settle r (attempt r ac.status.workloads ac w) in
      (
        observed c,
        rw no_hooks refl,
        refl,
        observed-EndsPass ac w c
            (settle-EndsPass ac w (attempt r ac.status.workloads ac w) hooks returns refl),
      )
