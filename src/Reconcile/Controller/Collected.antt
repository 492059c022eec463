-- ===== src/Reconcile/Controller/Collected.antt =====
-- applicationconfiguration.go, the collection of garbage in Reconcile with the collector that
-- NewReconciler sets: what its deletions cannot harm.
use oam_kubernetes_runtime.Base.{GoString, List, [], ◌∷◌, Result, ok, err, All, ◌≡◌, refl}
use oam_kubernetes_runtime.Api.{ApplicationConfiguration, WorkloadStatus}
use oam_kubernetes_runtime.Api.Value.{Unstructured}
use oam_kubernetes_runtime.Workload.{Workload}
use oam_kubernetes_runtime.Reconcile.Gc.{eligible, applied_refs}
use oam_kubernetes_runtime.Reconcile.Gc.Safety.{RefersTo, candidates, eligible-not_applied}
use oam_kubernetes_runtime.Reconcile.Controller.{
  Reconciler, Failed, Removal, removed, absent, refused, collect,
}

-- The cluster after a collection, whether it ended or was refused.
abbrev pub world_of : {W : Type 0} → Result (Failed W) W → W
world_of (ok w) = w
world_of (err f) = f.world

module _ {W : Type 0} (r : Reconciler W) (P : W → Type 0) (Harmless : Unstructured → Type 0) where
  kept_by_removal :
      (u : Unstructured) (w : W)
      → ((w' : W) → r.delete u w ≡ removed w' → P w')
      → P w
      → (ac : ApplicationConfiguration) (es : List Unstructured)
      → ((w' : W) → P w' → P (world_of (collect r ac es w')))
      → P (world_of (collect r ac (u ∷ es) w))
  unfolding collect
  kept_by_removal u w keep p ac es later = by_answer (r.delete u w) refl
    where
      by_answer : (a : Removal W) → r.delete u w ≡ a → P (world_of (collect r ac (u ∷ es) w))
      by_answer (removed w') e = rw (e, collect) (later w' (keep w' e))
      by_answer absent e = rw (e, collect) (later w p)
      by_answer (refused x) e = rw (e, collect) p

  collect_keeps :
      ((u : Unstructured) (w w' : W) → Harmless u → P w → r.delete u w ≡ removed w' → P w')
      → (ac : ApplicationConfiguration) (es : List Unstructured) (w : W) → All Harmless es
      → P w
      → P (world_of (collect r ac es w))
  unfolding collect
  collect_keeps keep ac [] w h p = p
  collect_keeps keep ac (u ∷ es) w h p =
      kept_by_removal u w (λ w'. keep u w w' h.0 p) p ac es
        (λ w' p'. collect_keeps keep ac es w' h.1 p')

-- A collection harms no rendered object: a property of the cluster that survives the deletion of each
-- object which no workload and no trait of the configuration refers to survives the collection, also one
-- that a refusal ends, where the statuses carry no UID.
pub collect-eligible :
    {W : Type 0} (r : Reconciler W) (P : W → Type 0) (ac : ApplicationConfiguration)
    (namespace : GoString) (ss : List WorkloadStatus) (wls : List Workload) (w : W)
    → ((u : Unstructured) (v v' : W)
        → All (λ ref. ¬ RefersTo ref u) (applied_refs wls)
        → P v
        → r.delete u v ≡ removed v'
        → P v')
    → All (λ ref. ref.uid ≡ []) (candidates ss)
    → P w
    → P (world_of (collect r ac (eligible namespace ss wls) w))
collect-eligible r P ac namespace ss wls w keep no_uid p =
    collect_keeps r P (λ u. All (λ ref. ¬ RefersTo ref u) (applied_refs wls)) keep ac
      (eligible namespace ss wls) w (eligible-not_applied namespace ss wls no_uid) p
