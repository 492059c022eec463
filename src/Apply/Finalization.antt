-- ===== src/Apply/Finalization.antt =====
-- apply.go, Finalize: the finalizer goes only once the workloads are out of their scopes.
use oam_kubernetes_runtime.Base.{
  GoString, true, false, List, [], ◌∷◌, ok, >>=-eq-ok, ok_inj, Bool-cases, ◌⊎◌, inl, inr, ◌≡◌, refl,
  sym, ap, ◌∙◌, All, if◌then◌else◌,
}
use oam_kubernetes_runtime.Api.{
  TypedReference, WorkloadScope, WorkloadStatus, ApplicationConfiguration,
}
use oam_kubernetes_runtime.Apply.Scopes.{
  ScopeClient, apply_scope_removal, remove_from, dereference_all_scopes,
}
use oam_kubernetes_runtime.Apply.Scopes.Removal.{IsGone, AllLeft, dereference_all_scopes-AllLeft}
use oam_kubernetes_runtime.Apply.{finalize}
use oam_kubernetes_runtime.Reconcile.Finalizers.{Finalizers, workload_scope_finalizer}

module _ {W : Type 0} (cl : ScopeClient W) (f : Finalizers) where
  apply_scope_removal-IsGone :
      (w : W) (ns : GoString) (wr : TypedReference) (s : WorkloadScope)
      → IsGone cl w ns s
      → apply_scope_removal cl w ns wr s ≡ ok w
  unfolding IsGone apply_scope_removal
  apply_scope_removal-IsGone w ns wr s h = rw (h, apply_scope_removal) refl

  remove_from-IsGone :
      (w : W) (ns : GoString) (wr : TypedReference) (ss : List WorkloadScope)
      → All (IsGone cl w ns) ss
      → remove_from cl ns wr ss w ≡ ok w
  unfolding remove_from
  remove_from-IsGone w ns wr [] h = refl
  remove_from-IsGone w ns wr (s ∷ ss) h =
      rw (apply_scope_removal-IsGone w ns wr s h.0) (remove_from-IsGone w ns wr ss h.1)

  dereference_all_scopes-IsGone :
      (w : W) (ns : GoString) (sts : List WorkloadStatus)
      → All (λ st. All (IsGone cl w ns) st.scopes) sts
      → dereference_all_scopes cl ns sts w ≡ ok w
  unfolding dereference_all_scopes
  dereference_all_scopes-IsGone w ns [] h = refl
  dereference_all_scopes-IsGone w ns (st ∷ sts) h =
      rw (remove_from-IsGone w ns st.reference st.scopes h.0)
        (dereference_all_scopes-IsGone w ns sts h.1)

  -- A configuration that is finalized has the finalizer no more and the same components and status. If it
  -- had the finalizer, then its workloads were taken one after the other out of the scopes of their
  -- statuses: where such a scope is in the cluster, its definition names a path, and either the
  -- list there has no reference to the workload or the scope is written with one reference to it
  -- less, the other entries kept in some order. If it had not, it is the same and so is the cluster.
  pub finalize-Removed :
      (ac ac' : ApplicationConfiguration) (w w' : W)
      → finalize cl f ac w ≡ ok (ac', w')
      → (f.finalizer_exists ac'.metadata workload_scope_finalizer ≡ false)
        × (ac'.components ≡ ac.components)
        × (ac'.status ≡ ac.status)
        × (((f.finalizer_exists ac.metadata workload_scope_finalizer ≡ true)
              × AllLeft cl ac.metadata.namespace ac.status.workloads w w')
            ⊎ ((f.finalizer_exists ac.metadata workload_scope_finalizer ≡ false)
                × (ac' ≡ ac)
                × (w' ≡ w)))
  unfolding finalize
  finalize-Removed ac ac' w w' h =
      elim (Bool-cases (f.finalizer_exists ac.metadata workload_scope_finalizer)) [
        | inl e ↦
            let (v, removed, h') =
              >>=-eq-ok (dereference_all_scopes cl ac.metadata.namespace ac.status.workloads w) _
                (rw e at h) in
            let same = ok_inj h' in
            (
              ap (λ p. f.finalizer_exists p.0.metadata workload_scope_finalizer) (sym same)
                  ∙ f.exists-remove ac.metadata workload_scope_finalizer,
              ap (λ p. p.0.components) (sym same),
              ap (λ p. p.0.status) (sym same),
              inl (
                e,
                dereference_all_scopes-AllLeft cl w w' ac.metadata.namespace ac.status.workloads
                    (removed ∙ ap (λ p. ok p.1) same),
              ),
            )
        | inr e ↦
            let same = ok_inj (rw e at h) in
            let kept = ap (λ p. p.0) (sym same) in
            (
              ap (λ a. f.finalizer_exists a.metadata workload_scope_finalizer) kept ∙ e,
              ap (λ a. a.components) kept,
              ap (λ a. a.status) kept,
              inr (e, kept, ap (λ p. p.1) (sym same)),
            )
      ]

  -- Scopes that are deleted do not block the deletion of the configuration: where none is left,
  -- its finalization succeeds and leaves the cluster as it is.
  pub finalize-IsGone :
      (ac : ApplicationConfiguration) (w : W)
      → All (λ st. All (IsGone cl w ac.metadata.namespace) st.scopes) ac.status.workloads
      → finalize cl f ac w
        ≡ ok (
          if f.finalizer_exists ac.metadata workload_scope_finalizer
              then record ac { metadata = f.remove_finalizer ac.metadata workload_scope_finalizer }
              else ac,
          w,
        )
  unfolding finalize
  finalize-IsGone ac w h =
      elim (Bool-cases (f.finalizer_exists ac.metadata workload_scope_finalizer)) [
        | inl e ↦
            rw (e, dereference_all_scopes-IsGone w ac.metadata.namespace ac.status.workloads h) refl
        | inr e ↦ rw e refl
      ]
