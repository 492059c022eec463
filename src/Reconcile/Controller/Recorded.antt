-- ===== src/Reconcile/Controller/Recorded.antt =====
-- applicationconfiguration.go, Reconcile: what a pass that comes to its end records.
use oam_kubernetes_runtime.Base.{
  ℕ, GoString, is_nil, true, Bool-cases, some, List, [], ◌∷◌, map, if◌then◌else◌, Result, ok, err,
  >>=-eq-ok, ok_inj, ◌≡◌, refl, sym, ap, ◌∙◌, inl, inr,
}
use oam_kubernetes_runtime.Api.{
  reconcile_success, ApplicationConfiguration, WorkloadStatus, UnsatisfiedDependency,
}
use oam_kubernetes_runtime.Workload
use oam_kubernetes_runtime.Workload.{Workload}
use oam_kubernetes_runtime.Reconcile.Status.{patch_extra_status_field}
use oam_kubernetes_runtime.Reconcile.Controller.{
  Reconciler, Completed, with_dependency, depend_check_wait, updated_status, run_pre_hooks,
  rendered, applied, collect, apply_and_collect, render_and_apply, attempt,
}

module _ {W : Type 0} (r : Reconciler W) where
  -- What a pass that comes to its end has rendered and recorded.
  pub record Recorded (olds : List WorkloadStatus) (c : Completed W) : Type 0 where
    pub at : ApplicationConfiguration
    pub seen : W
    pub workloads : List Workload
    pub unsatisfied : List UnsatisfiedDependency
    pub is_rendered : r.render at seen ≡ ok (workloads, unsatisfied)
    pub statuses :
        c.ac.status.workloads ≡ patch_extra_status_field (map Workload.status workloads) olds
    pub dependency : c.ac.status.dependency ≡ unsatisfied
    pub success : c.ac.status.synced ≡ some reconcile_success
    pub wait : c.requeue ≡ (if is_nil unsatisfied then r.long_wait else depend_check_wait)

  apply_and_collect-ok :
      (olds : List WorkloadStatus) (ac : ApplicationConfiguration) (wait_time : ℕ)
      (wls : List Workload) (w : W) (c : Completed W)
      → apply_and_collect r olds ac wait_time wls w ≡ ok c
      → (w₂ : W) × (c.ac ≡ updated_status r ac olds wls w₂) × (c.requeue ≡ wait_time)
  unfolding apply_and_collect
  apply_and_collect-ok olds ac wait_time wls w c h =
      let (w₁, _, h₁) = >>=-eq-ok (applied r ac (r.apply ac.status.workloads wls w)) _ h in
      let (w₂, _, h₂) =
        >>=-eq-ok (collect r ac (r.gc ac.metadata.namespace ac.status.workloads wls) w₁) _ h₁ in
      let same = sym (ok_inj h₂) in
      (w₂, ap (λ (x : Completed W). x.ac) same, ap (λ (x : Completed W). x.requeue) same)

  rendered-ok :
      (ac : ApplicationConfiguration) (w : W)
      (q : Result GoString (List Workload × List UnsatisfiedDependency))
      (p : List Workload × List UnsatisfiedDependency)
      → rendered r ac w q ≡ ok p
      → q ≡ ok p
  unfolding rendered
  rendered-ok ac w (ok p') p h = cc
  rendered-ok ac w (err e) p h = cc

  -- With the dependencies written and the time to wait set, the end of a pass records the rest.
  Recorded-of :
      (olds : List WorkloadStatus) (ac ac' : ApplicationConfiguration) (w : W) (wait_time : ℕ)
      (wls : List Workload) (unsatisfied : List UnsatisfiedDependency) (c : Completed W)
      → r.render ac w ≡ ok (wls, unsatisfied)
      → ac'.status.dependency ≡ unsatisfied
      → wait_time ≡ (if is_nil unsatisfied then r.long_wait else depend_check_wait)
      → apply_and_collect r olds ac' wait_time wls w ≡ ok c
      → Recorded olds c
  unfolding updated_status
  Recorded-of olds ac ac' w wait_time wls unsatisfied c is_rendered dependency wait h =
      let (w₂, same, waits) = apply_and_collect-ok olds ac' wait_time wls w c h in
      record {
        at = ac;
        seen = w;
        workloads = wls;
        unsatisfied = unsatisfied;
        is_rendered = is_rendered;
        statuses = ap (λ (x : ApplicationConfiguration). x.status.workloads) same;
        dependency = ap (λ (x : ApplicationConfiguration). x.status.dependency) same ∙ dependency;
        success = ap (λ (x : ApplicationConfiguration). x.status.synced) same;
        wait = waits ∙ wait;
      }

  nil_of_is_nil : (us : List UnsatisfiedDependency) → is_nil us ≡ true → us ≡ []
  nil_of_is_nil [] h = refl
  nil_of_is_nil (u ∷ us) h = cc

  render_and_apply-Recorded :
      (olds : List WorkloadStatus) (ac : ApplicationConfiguration) (w : W) (c : Completed W)
      → ac.status.dependency ≡ []
      → render_and_apply r olds ac w ≡ ok c
      → Recorded olds c
  unfolding render_and_apply
  render_and_apply-Recorded olds ac w c empty h =
      let (p, is_ok, h₁) = >>=-eq-ok (rendered r ac w (r.render ac w)) _ h in
      let is_rendered = rendered-ok ac w (r.render ac w) p is_ok in
      elim (Bool-cases (is_nil p.1)) [
        | inl e ↦
            Recorded-of olds ac ac w r.long_wait p.0 p.1 c is_rendered
              (empty ∙ sym (nil_of_is_nil p.1 e)) (rw e refl) (rw e at h₁)
        | inr e ↦
            Recorded-of olds ac (with_dependency p.1 ac) w depend_check_wait p.0 p.1 c is_rendered
              refl (rw e refl) (rw e at h₁)
      ]

  pub attempt-Recorded :
      (olds : List WorkloadStatus) (ac : ApplicationConfiguration) (w : W) (c : Completed W)
      → attempt r olds ac w ≡ ok c
      → Recorded olds c
  unfolding attempt
  attempt-Recorded olds ac w c h =
      let (p, _, h₁) = >>=-eq-ok (run_pre_hooks r r.pre_hooks ac w) _ h in
      render_and_apply-Recorded olds (with_dependency [] p.0) p.1 c refl h₁
