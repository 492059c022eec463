-- ===== src/Apply/Waiting.antt =====
-- apply.go, Apply: objects that wait for data are not applied.
use oam_kubernetes_runtime.Base.{
  GoString, false, Bool-cases, List, [], ◌∷◌, All, inl, inr, Result, ok, err, ◌>>=◌, >>=_congr, ◌≡◌,
  refl, ap,
}
use oam_kubernetes_runtime.Api.{WorkloadStatus}
use oam_kubernetes_runtime.Api.Value.{Unstructured}
use oam_kubernetes_runtime.Workload.{Workload}
use oam_kubernetes_runtime.Apply.Scopes.{ScopeClient}
use oam_kubernetes_runtime.Apply.Data.{DataClient, apply_input_ref, apply_output_ref}
use oam_kubernetes_runtime.Apply.Patch.{Applied, DataError}
use oam_kubernetes_runtime.Apply.{
  ApplyError, apply_workload, data_step, after, apply_traits, apply_trait_step, apply_scopes,
  apply_workload_step, apply_workloads, apply,
}

module _ {W : Type 0} (scopes : ScopeClient W) (cl : DataClient W)
    (patch : W → Unstructured → Applied W) where
  other : DataClient W
  other = record cl { patching_apply = patch }

  patched : (W → Unstructured → Applied W) → W → Unstructured → Result ApplyError (Unstructured × W)
  patched patching w object = after apply_workload (patching w object) >>= λ w'. ok (object, w')

  applied_input :
      (w : W) (r : Result DataError Unstructured)
      → ((u : Unstructured) → r ≡ ok u → patch w u ≡ cl.patching_apply w u)
      → (data_step r >>= patched patch w) ≡ (data_step r >>= patched cl.patching_apply w)
  unfolding data_step patched
  applied_input w (ok u) same = >>=_congr (ap (after apply_workload) (same u refl)) (λ w'. refl)
  applied_input w (err e) same = refl

  -- On what a workload that does not wait becomes by its inputs the two ways to patch agree.
  unfoldable pub AgreeOn : Workload → Type 0
  AgreeOn wl =
      wl.has_dep ≡ false
      → (w : W) (ns : GoString) (u : Unstructured)
      → apply_input_ref cl w wl.workload wl.data_inputs ns ≡ ok u
      → patch w u ≡ cl.patching_apply w u

  apply_workload_step_same :
      (ns : GoString) (wl : Workload) (w : W)
      → AgreeOn wl
      → apply_workload_step scopes other ns wl w ≡ apply_workload_step scopes cl ns wl w
  unfolding apply_workload_step apply_traits apply_trait_step apply_scopes apply_input_ref
      apply_output_ref other patched AgreeOn
  apply_workload_step_same ns wl w agree = elim (Bool-cases wl.has_dep) [
    | inl waits ↦ rw waits refl
    | inr ready ↦ rw ready (
        >>=_congr
          (applied_input w (apply_input_ref cl w wl.workload wl.data_inputs ns) (agree ready w ns))
          (λ x. refl))
  ]

  apply_workloads_same :
      (ns : GoString) (wls : List Workload) (w : W)
      → All AgreeOn wls
      → apply_workloads scopes other ns wls w ≡ apply_workloads scopes cl ns wls w
  unfolding apply_workloads
  apply_workloads_same ns [] w agree = refl
  apply_workloads_same ns (wl ∷ wls) w agree =
      >>=_congr (apply_workload_step_same ns wl w agree.0)
        (λ x. >>=_congr (apply_workloads_same ns wls x.1 agree.1) (λ y. refl))

  -- Only what does not wait is patched: with any other way to patch, that agrees with the client's
  -- on the objects that the workloads which do not wait become by their inputs, the workloads,
  -- traits and scopes are applied with the same result.
  pub apply_same :
      (status : List WorkloadStatus) (wls : List Workload) (w : W)
      → All AgreeOn wls
      → apply scopes (record cl { patching_apply = patch }) status wls w
        ≡ apply scopes cl status wls w
  unfolding apply other
  apply_same status [] w agree = refl
  apply_same status (wl ∷ wls) w agree =
      >>=_congr (apply_workloads_same wl.workload.namespace (wl ∷ wls) w agree) (λ x. refl)
