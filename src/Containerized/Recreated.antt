-- ===== src/Containerized/Recreated.antt =====
-- cleanupResources looks a recorded Deployment up by its name, and every Deployment of a workload
-- has the workload's name.
use oam_kubernetes_runtime.Base.{
  GoString, ◌==◌, ==_iff, Bool, true, false, Bool-cases, List, [], ◌∷◌, Result, ok, err, ok_inj,
  err-ne-ok, Result-cases, ◌≡◌, ◌≢◌, refl, ap, ◌∙◌, subst, inl, inr,
}
use oam_kubernetes_runtime.Api.{TypedReference, Condition, reconcile_success}
use oam_kubernetes_runtime.Api.Fieldpath.{Got, found, missing, failed}
use oam_kubernetes_runtime.Containerized.Types.{ContainerizedWorkload}
use oam_kubernetes_runtime.Containerized.Kube.{Deployment, Service}
use oam_kubernetes_runtime.Containerized.Controller.{
  Client, is_deployment, is_service, cleanup_resource, cleanup_resources, clean_and_record, finish,
  delete_found, after_patch,
}

-- A granted deletion removes the Deployment, and no call but a patch of one makes a Deployment: what
-- the API server documents of these calls.
pub record Deletes {W : Type 0} (cl : Client W) : Type 0 where
  pub gone :
      (namespace name : GoString) (d : Deployment) (w w' : W)
      → cl.get_deployment namespace name w ≡ found d
      → cl.delete_deployment d w ≡ ok w'
      → cl.get_deployment namespace name w' ≡ missing
  pub by_delete_deployment :
      (namespace name : GoString) (d : Deployment) (w w' : W)
      → cl.get_deployment namespace name w ≡ missing
      → cl.delete_deployment d w ≡ ok w'
      → cl.get_deployment namespace name w' ≡ missing
  pub by_delete_service :
      (namespace name : GoString) (s : Service) (w w' : W)
      → cl.get_deployment namespace name w ≡ missing
      → cl.delete_service s w ≡ ok w'
      → cl.get_deployment namespace name w' ≡ missing
  pub by_update_status :
      (namespace name : GoString) (cw : ContainerizedWorkload) (w w' : W)
      → cl.get_deployment namespace name w ≡ missing
      → cl.update_status cw w ≡ ok w'
      → cl.get_deployment namespace name w' ≡ missing
  pub by_patch_condition :
      (namespace name : GoString) (cw : ContainerizedWorkload) (c : Condition) (w w' : W)
      → cl.get_deployment namespace name w ≡ missing
      → cl.patch_condition cw c w ≡ ok w'
      → cl.get_deployment namespace name w' ≡ missing

module _ {W : Type 0} (cl : Client W) (laws : Deletes cl) (namespace name : GoString) where
  abbrev IsMissing : W → Type 0
  IsMissing w = cl.get_deployment namespace name w ≡ missing

  delete_found-IsMissing :
      {A : Type 0} (got : Got A) (delete : A → W → Result GoString W) (w w' : W)
      → ((a : A) → delete a w ≡ ok w' → IsMissing w')
      → IsMissing w
      → delete_found got delete w ≡ ok w'
      → IsMissing w'
  unfolding delete_found
  delete_found-IsMissing (found a) delete w w' keep m h = keep a h
  delete_found-IsMissing missing delete w w' keep m h = subst IsMissing (ok_inj h) m
  delete_found-IsMissing (failed e) delete w w' keep m h = absurd (err-ne-ok e w' h)

  module _ (deploy_uid service_uid : GoString) where
    cleanup_resource-IsMissing :
        (res : TypedReference) (w w' : W)
        → IsMissing w
        → cleanup_resource cl namespace deploy_uid service_uid res w ≡ ok w'
        → IsMissing w'
    unfolding cleanup_resource
    cleanup_resource-IsMissing res w w' m h = elim (Bool-cases (is_deployment res)) [
      | inl e ↦ elim (Bool-cases (res.uid == deploy_uid)) [
        | inl u ↦ subst IsMissing (ok_inj (rw (e, u) at h)) m
        | inr u ↦
            delete_found-IsMissing (cl.get_deployment namespace res.name w) cl.delete_deployment w
              w' (λ d. laws.by_delete_deployment namespace name d w w' m) m (rw (e, u) at h)
      ]
      | inr e ↦ elim (Bool-cases (is_service res)) [
        | inl e' ↦ elim (Bool-cases (res.uid == service_uid)) [
          | inl u ↦ subst IsMissing (ok_inj (rw (e, e', u) at h)) m
          | inr u ↦
              delete_found-IsMissing (cl.get_service namespace res.name w) cl.delete_service w w'
                (λ s. laws.by_delete_service namespace name s w w' m) m (rw (e, e', u) at h)
        ]
        | inr e' ↦ subst IsMissing (ok_inj (rw (e, e') at h)) m
      ]
    ]

    cleanup_resources-IsMissing :
        (resources : List TypedReference) (w : W)
        → IsMissing w
        → IsMissing (cleanup_resources cl namespace deploy_uid service_uid resources w).1
    unfolding cleanup_resources
    cleanup_resources-IsMissing [] w m = m
    cleanup_resources-IsMissing (res ∷ rest) w m =
        elim (Result-cases (cleanup_resource cl namespace deploy_uid service_uid res w)) [
          | inl (w', e) ↦
              rw (e, cleanup_resources)
                (cleanup_resources-IsMissing rest w' (cleanup_resource-IsMissing res w w' m e))
          | inr (x, e) ↦ rw (e, cleanup_resources) m
        ]

  after_patch-IsMissing :
      (wait : Bool) (w : W) (r : Result GoString W)
      → IsMissing w
      → ((w' : W) → r ≡ ok w' → IsMissing w')
      → IsMissing (after_patch cl wait w r).world
  unfolding after_patch
  after_patch-IsMissing wait w (ok w') m keep = keep w' refl
  after_patch-IsMissing wait w (err e) m keep = m

  finish-IsMissing :
      (cw : ContainerizedWorkload) (w : W) → IsMissing w → IsMissing (finish cl cw w).world
  unfolding finish
  finish-IsMissing cw w m = elim (Result-cases (cl.update_status cw w)) [
    | inl (w', e) ↦
        let m' = laws.by_update_status namespace name cw w w' m e in
        rw (e, finish)
          (after_patch-IsMissing false w' (cl.patch_condition cw reconcile_success w') m'
            (λ w'' e'. laws.by_patch_condition namespace name cw reconcile_success w' w'' m' e'))
    | inr (x, e) ↦ rw (e, finish) m
  ]

deployment_deleted :
    {W : Type 0} (cl : Client W) (namespace deploy_uid service_uid : GoString)
    (res : TypedReference) (d : Deployment) (w : W)
    → is_deployment res ≡ true
    → (res.uid == deploy_uid) ≡ false
    → cl.get_deployment namespace res.name w ≡ found d
    → cleanup_resource cl namespace deploy_uid service_uid res w ≡ cl.delete_deployment d w
unfolding cleanup_resource delete_found
deployment_deleted cl namespace deploy_uid service_uid res d w is differ got =
    rw (is, differ, got) refl

-- Where the first entry of a workload's status is a Deployment of the workload's name that is not the one
-- in use, as it is after somebody deleted that Deployment and a reconciliation applied it anew, the
-- reconciliation deletes the Deployment which it has just applied, if the API server grants it.
pub clean_and_record-missing :
    {W : Type 0} (cl : Client W)
    → Deletes cl
    → (cw : ContainerizedWorkload) (d : Deployment) (s : Service) (res : TypedReference)
      (rest : List TypedReference) (w w' : W)
    → cw.status.resources ≡ res ∷ rest
    → is_deployment res ≡ true
    → res.name ≡ d.head.name
    → res.uid ≢ d.head.uid
    → cl.get_deployment cw.metadata.namespace d.head.name w ≡ found d
    → cl.delete_deployment d w ≡ ok w'
    → cl.get_deployment cw.metadata.namespace d.head.name (clean_and_record cl cw d s w).world
      ≡ missing
unfolding clean_and_record
clean_and_record-missing cl laws cw d s res rest w w' listed is same_name other applied deleted =
    finish-IsMissing cl laws cw.metadata.namespace d.head.name _ _ (
      rw listed (
        rw (first, cleanup_resources)
          (cleanup_resources-IsMissing cl laws cw.metadata.namespace d.head.name d.head.uid
            s.head.uid rest w'
            (laws.gone cw.metadata.namespace d.head.name d w w' applied deleted))))
  where
    differ : (res.uid == d.head.uid) ≡ false
    differ = elim (Bool-cases (res.uid == d.head.uid)) [
      | inl e ↦ absurd (other ((==_iff res.uid d.head.uid).0 e))
      | inr e ↦ e
    ]

    first : cleanup_resource cl cw.metadata.namespace d.head.uid s.head.uid res w ≡ ok w'
    first =
        deployment_deleted cl cw.metadata.namespace d.head.uid s.head.uid res d w is differ
          (ap (λ n. cl.get_deployment cw.metadata.namespace n w) same_name ∙ applied)
        ∙ deleted
