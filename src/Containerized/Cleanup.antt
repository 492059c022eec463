-- ===== src/Containerized/Cleanup.antt =====
-- cleanupResources between two runs: what it leaves alone, and what it deletes.
use oam_kubernetes_runtime.Base.{
  GoString, ==_iff, true, Bool-cases, none, List, [], ◌∷◌, ok, All, ◌≡◌, refl, inl, inr,
}
use oam_kubernetes_runtime.Api.{TypedReference}
use oam_kubernetes_runtime.Containerized.Controller.{
  Client, is_deployment, is_service, cleanup_resource, cleanup_resources,
}

-- The entry of a status is the Deployment or the Service that is in use, or neither kind.
abbrev pub IsCurrent : GoString → GoString → TypedReference → Type 0
IsCurrent deploy_uid service_uid res =
    (is_deployment res ≡ true → res.uid ≡ deploy_uid)
    × (is_service res ≡ true → res.uid ≡ service_uid)

module _ {W : Type 0} (cl : Client W) (namespace deploy_uid service_uid : GoString) where
  cleanup_resource_current :
      (res : TypedReference) (w : W)
      → IsCurrent deploy_uid service_uid res
      → cleanup_resource cl namespace deploy_uid service_uid res w ≡ ok w
  unfolding cleanup_resource
  cleanup_resource_current res w h = elim (Bool-cases (is_deployment res)) [
    | inl e ↦ rw (e, (==_iff res.uid deploy_uid).1 (h.0 e)) refl
    | inr e ↦ elim (Bool-cases (is_service res)) [
      | inl e' ↦ rw (e, e', (==_iff res.uid service_uid).1 (h.1 e')) refl
      | inr e' ↦ rw (e, e') refl
    ]
  ]

-- If each recorded Deployment is the one in use, and each recorded Service, then nothing is deleted and
-- nothing is read: the clean-up ends without an error and with the cluster as it was.
pub cleanup_resources-steady :
    {W : Type 0} (cl : Client W) (namespace deploy_uid service_uid : GoString)
    (resources : List TypedReference) (w : W)
    → All (IsCurrent deploy_uid service_uid) resources
    → cleanup_resources cl namespace deploy_uid service_uid resources w ≡ (none, w)
unfolding cleanup_resources
cleanup_resources-steady cl namespace deploy_uid service_uid [] w h = refl
cleanup_resources-steady cl namespace deploy_uid service_uid (res ∷ rest) w h =
    rw (cleanup_resource_current cl namespace deploy_uid service_uid res w h.0, cleanup_resources)
      (cleanup_resources-steady cl namespace deploy_uid service_uid rest w h.1)
