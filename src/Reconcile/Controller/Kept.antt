-- ===== src/Reconcile/Controller/Kept.antt =====
-- applicationconfiguration.go, Reconcile: a pass that ends early keeps the recorded workloads.
use oam_kubernetes_runtime.Base.{
  ℕ, GoString, is_nil, Bool-cases, Option-cases, Option, none, some, List, [], ◌∷◌, Result, ok, err,
  >>=-eq-err, err_inj, All, ◌≡◌, refl, sym, ap, ◌∙◌, inl, inr,
}
use oam_kubernetes_runtime.Api.{ApplicationConfiguration, WorkloadStatus, UnsatisfiedDependency}
use oam_kubernetes_runtime.Api.Value.{Unstructured}
use oam_kubernetes_runtime.Workload.{Workload}
use oam_kubernetes_runtime.Reconcile.Controller.{
  Reconciler, HookOutcome, Removal, removed, absent, refused, Failed, with_dependency,
  depend_check_wait, run_pre_hooks, rendered, applied, collect, apply_and_collect, render_and_apply,
  attempt,
}

-- A pre-hook leaves the recorded workloads alone.
abbrev pub HookKeeps : {W : Type 0} → (ApplicationConfiguration → W → HookOutcome W) → Type 0
HookKeeps {W = W} hook =
    (ac : ApplicationConfiguration) (w : W) → (hook ac w).ac.status.workloads ≡ ac.status.workloads

module _ {W : Type 0} (r : Reconciler W) where
  abbrev pub Keeps : ApplicationConfiguration → ApplicationConfiguration → Type 0
  Keeps ac ac' = ac'.status.workloads ≡ ac.status.workloads

  -- The configuration with which the pre-hooks end.
  hooked_of : Result (Failed W) (ApplicationConfiguration × W) → ApplicationConfiguration
  hooked_of (ok p) = p.0
  hooked_of (err f) = f.ac

  pre_hooks_keep :
      (hooks : List (ApplicationConfiguration → W → HookOutcome W)) (ac : ApplicationConfiguration)
      (w : W)
      → All HookKeeps hooks
      → Keeps ac (hooked_of (run_pre_hooks r hooks ac w))
  unfolding run_pre_hooks hooked_of
  pre_hooks_keep [] ac w h = refl
  pre_hooks_keep (hook ∷ hooks) ac w h = elim (Option-cases (hook ac w).failure) [
    | inl e ↦
        rw (e, run_pre_hooks) (pre_hooks_keep hooks (hook ac w).ac (hook ac w).world h.1 ∙ h.0 ac w)
    | inr (x, e) ↦ rw (e, run_pre_hooks) (h.0 ac w)
  ]

  collect_keeps_ac :
      (ac : ApplicationConfiguration) (es : List Unstructured) (w : W) {f : Failed W}
      → collect r ac es w ≡ err f
      → f.ac ≡ ac
  unfolding collect
  collect_keeps_ac ac [] w h = cc
  collect_keeps_ac ac (u ∷ es) w {f = f} h =
      by_answer (r.delete u w) refl (collect_keeps_ac ac es w) (λ w'. collect_keeps_ac ac es w')
    where
      by_answer :
          (a : Removal W)
          → r.delete u w ≡ a
          → (collect r ac es w ≡ err f → f.ac ≡ ac)
          → ((w' : W) → collect r ac es w' ≡ err f → f.ac ≡ ac)
          → f.ac ≡ ac
      by_answer (removed w') e here later = later w' (rw (e, collect) at h)
      by_answer absent e here later = here (rw (e, collect) at h)
      by_answer (refused x) e here later = let g = rw (e, collect) at h in cc

  apply_and_collect-err :
      (olds : List WorkloadStatus) (ac : ApplicationConfiguration) (wait_time : ℕ)
      (wls : List Workload) (w : W) (f : Failed W)
      → apply_and_collect r olds ac wait_time wls w ≡ err f
      → f.ac ≡ ac
  unfolding apply_and_collect
  apply_and_collect-err olds ac wait_time wls w f h =
      elim (>>=-eq-err (applied r ac (r.apply ac.status.workloads wls w)) _ h) [
        | inl e ↦ applied-err (r.apply ac.status.workloads wls w) e
        | inr (w₁, _, h₁) ↦
            elim (>>=-eq-err (collect r ac (r.gc ac.metadata.namespace ac.status.workloads wls) w₁)
              _ h₁) [ inl e ↦ collect_keeps_ac ac _ w₁ e | inr (w₂, _, h₂) ↦ cc ]
      ]
    where
      applied-err : (p : Option GoString × W) → applied r ac p ≡ err f → f.ac ≡ ac
      applied-err (none, v) e = cc
      applied-err (some x, v) e = ap (λ (g : Failed W). g.ac) (sym (err_inj e))

  render_and_apply-err :
      (olds : List WorkloadStatus) (ac : ApplicationConfiguration) (w : W) (f : Failed W)
      → render_and_apply r olds ac w ≡ err f
      → Keeps ac f.ac
  unfolding render_and_apply
  render_and_apply-err olds ac w f h = elim (>>=-eq-err (rendered r ac w (r.render ac w)) _ h) [
    | inl e ↦ rendered-err (r.render ac w) e
    | inr (p, _, h₁) ↦ elim (Bool-cases (is_nil p.1)) [
      | inl e ↦
          ap (λ (a : ApplicationConfiguration). a.status.workloads)
            (apply_and_collect-err olds ac r.long_wait p.0 w f (rw e at h₁))
      | inr e ↦
          ap (λ (a : ApplicationConfiguration). a.status.workloads)
            (apply_and_collect-err olds (with_dependency p.1 ac) depend_check_wait p.0 w f
              (rw e at h₁))
    ]
  ]
    where
      rendered-err :
          (q : Result GoString (List Workload × List UnsatisfiedDependency))
          → rendered r ac w q ≡ err f
          → Keeps ac f.ac
      rendered-err (ok p) e = cc
      rendered-err (err x) e = ap (λ (g : Failed W). g.ac.status.workloads) (sym (err_inj e))

  -- A pass that fails forgets no recorded workload.
  pub attempt-Keeps :
      (olds : List WorkloadStatus) (ac : ApplicationConfiguration) (w : W) (f : Failed W)
      → All HookKeeps r.pre_hooks
      → attempt r olds ac w ≡ err f
      → Keeps ac f.ac
  unfolding attempt hooked_of
  attempt-Keeps olds ac w f hooks h =
      let kept = pre_hooks_keep r.pre_hooks ac w hooks in
      elim (>>=-eq-err (run_pre_hooks r r.pre_hooks ac w) _ h) [
        | inl e ↦ rw (e, hooked_of) at kept
        | inr (p, e, h₁) ↦
            render_and_apply-err olds (with_dependency [] p.0) p.1 f h₁
            ∙ (rw (e, hooked_of) at kept)
      ]
