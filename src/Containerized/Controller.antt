-- ===== src/Containerized/Controller.antt =====
-- containerizedworkload_controller.go, Reconcile, and cleanupResources of
-- containerizedworkload_controller_helper.go, with PatchCondition of pkg/oam/util/helper.go. W is the
-- state of the cluster; logs and events are left out.
use oam_kubernetes_runtime.Base.{
  GoString, codes, ◌==◌, Bool, true, false, not, ◌&&◌, Option, none, some, List, [], ◌∷◌, ◌++◌,
  if◌then◌else◌, Result, ok, err, ◌>>=◌,
}
use oam_kubernetes_runtime.Api.{TypedReference, Condition, reconcile_success, reconcile_error}
use oam_kubernetes_runtime.Api.Fieldpath.{Got, found, missing, failed}
use oam_kubernetes_runtime.Containerized.Types.{ContainerizedWorkload}
use oam_kubernetes_runtime.Containerized.Kube.{Head, Deployment, Service, ConfigMap}
use oam_kubernetes_runtime.Containerized.Translate.Parts.{TranslateError, error, panic}
use oam_kubernetes_runtime.Containerized.Render.{
  render_deployment, render_service, render_config_maps,
}

-- The client, by namespace and name; a granted patch of a Deployment or a Service returns the object
-- of the server. A deletion is of the object that was read.
pub record Client (W : Type 0) : Type 0 where
  pub get_workload : GoString → GoString → W → Got ContainerizedWorkload
  pub patch_deployment : GoString → Deployment → W → Result GoString (Deployment × W)
  pub patch_config_map : GoString → ConfigMap → W → Result GoString W
  pub patch_service : GoString → Service → W → Result GoString (Service × W)
  pub get_deployment : GoString → GoString → W → Got Deployment
  pub get_service : GoString → GoString → W → Got Service
  pub delete_deployment : Deployment → W → Result GoString W
  pub delete_service : Service → W → Result GoString W
  pub update_status : ContainerizedWorkload → W → Result GoString W
  pub patch_condition : ContainerizedWorkload → Condition → W → Result GoString W

-- What a reconciliation returns: whether it asks to be repeated after a wait, and its error.
pub record Outcome (W : Type 0) : Type 0 where
  pub wait : Bool
  pub failure : Option GoString
  pub world : W

abbrev pub api_apps : GoString
api_apps = codes "apps/v1"

abbrev pub api_core : GoString
api_core = codes "v1"

abbrev pub kind_deployment : GoString
kind_deployment = codes "Deployment"

abbrev pub kind_service : GoString
kind_service = codes "Service"

unfoldable pub is_deployment : TypedReference → Bool
is_deployment res = res.kind == kind_deployment && res.api_version == api_apps

unfoldable pub is_service : TypedReference → Bool
is_service res = res.kind == kind_service && res.api_version == api_core

-- errors.Wrap(err, text).Error()
abbrev wrap : GoString → GoString → GoString
wrap text e = text ++ (codes ": " ++ e)

-- A deletion of what a read found; a missing object is skipped.
unfoldable pub delete_found :
    {A W : Type 0} → Got A → (A → W → Result GoString W) → W → Result GoString W
delete_found (found a) delete w = delete a w
delete_found missing delete w = ok w
delete_found (failed e) delete w = err e

module _ {W : Type 0} (cl : Client W) where
  -- One round of the loop. Its object is looked up by the name that the status has.
  unfoldable pub cleanup_resource :
      GoString → GoString → GoString → TypedReference → W → Result GoString W
  unfolding is_deployment is_service delete_found
  cleanup_resource namespace deploy_uid service_uid res w =
      if is_deployment res
      then (if not (res.uid == deploy_uid)
          then delete_found (cl.get_deployment namespace res.name w) cl.delete_deployment w
          else ok w)
      else if is_service res
      then (if not (res.uid == service_uid)
          then delete_found (cl.get_service namespace res.name w) cl.delete_service w
          else ok w)
      else ok w

  -- cleanupResources: the error that ended it, if any, and the cluster afterwards.
  unfoldable pub cleanup_resources :
      GoString → GoString → GoString → List TypedReference → W → Option GoString × W
  cleanup_resources namespace deploy_uid service_uid [] w = (none, w)
  cleanup_resources namespace deploy_uid service_uid (res ∷ rest) w =
      elim (cleanup_resource namespace deploy_uid service_uid res w) [
        | ok w' ↦ cleanup_resources namespace deploy_uid service_uid rest w'
        | err e ↦ (some e, w)
      ]

  -- A goroutine that stopped early: by a return, or by a panic.
  pub data Stop : Type 0 where
    returned : Outcome W → Stop
    panicked : Stop

  unfoldable pub after_patch : Bool → W → Result GoString W → Outcome W
  after_patch wait w (ok w') = record { wait = wait; failure = none; world = w' }
  after_patch wait w (err e) = record {
    wait = wait;
    failure = some (wrap (codes "cannot apply status") e);
    world = w;
  }

  -- return util.ReconcileWaitResult, util.PatchCondition(...)
  unfoldable pub fail : ContainerizedWorkload → GoString → GoString → W → Stop
  unfolding after_patch
  fail cw text e w =
      returned (after_patch true w (cl.patch_condition cw (reconcile_error (wrap text e)) w))

  unfoldable pub rendered :
      {A : Type 0} → ContainerizedWorkload → GoString → W → Result TranslateError A → Result Stop A
  unfolding fail
  rendered cw text w (ok a) = ok a
  rendered cw text w (err (error e)) = err (fail cw text e w)
  rendered cw text w (err panic) = err panicked

  unfoldable pub patched :
      {A : Type 0} → ContainerizedWorkload → GoString → W → Result GoString A → Result Stop A
  unfolding fail
  patched cw text w (ok a) = ok a
  patched cw text w (err e) = err (fail cw text e w)

  unfoldable pub patch_config_maps :
      ContainerizedWorkload → GoString → List ConfigMap → W → Result Stop W
  unfolding patched
  patch_config_maps cw owner [] w = ok w
  patch_config_maps cw owner (cm ∷ cms) w =
      patched cw (codes "cannot apply the configmap") w (cl.patch_config_map owner cm w) >>= λ w'.
      patch_config_maps cw owner cms w'

  -- The resources that the status records.
  unfoldable pub recorded : Deployment → Service → List TypedReference
  recorded d s =
      record {
        api_version = d.head.api_version;
        kind = d.head.kind;
        name = d.head.name;
        uid = d.head.uid;
      }
      ∷ record {
        api_version = s.head.api_version;
        kind = s.head.kind;
        name = s.head.name;
        uid = s.head.uid;
      }
      ∷ []

  -- Status().Update, and the condition of success
  unfoldable pub finish : ContainerizedWorkload → W → Outcome W
  unfolding after_patch
  finish cw w = elim (cl.update_status cw w) [
    | err e ↦ record { wait = true; failure = some e; world = w }
    | ok w' ↦ after_patch false w' (cl.patch_condition cw reconcile_success w')
  ]

  -- The end of Reconcile, after the Deployment d and the Service s were applied.
  unfoldable pub clean_and_record : ContainerizedWorkload → Deployment → Service → W → Outcome W
  unfolding finish recorded cleanup_resources
  clean_and_record cw d s w =
      let (_, w') =
        cleanup_resources cw.metadata.namespace d.head.uid s.head.uid cw.status.resources w in
      finish (record cw { status = record { resources = recorded d s } }) w'

  module _
      (set_controller_reference : GoString
        → GoString
        → Head
        → Result GoString (List GoString)) where
    unfoldable pub reconcile_workload : ContainerizedWorkload → W → Result Stop (Outcome W)
    unfolding clean_and_record rendered patched patch_config_maps
    reconcile_workload cw w =
        rendered cw (codes "cannot render workload") w
          (render_deployment set_controller_reference cw)
        >>= λ deploy.
            patched cw (codes "cannot apply the deployment") w
              (cl.patch_deployment cw.metadata.uid deploy w)
            >>= λ (d, w₁).
                rendered cw (codes "cannot render workload") w₁
                  (render_config_maps set_controller_reference cw d)
                >>= λ cms. patch_config_maps cw d.head.uid cms w₁ >>= λ w₂.
                    rendered cw (codes "cannot render service") w₂
                      (render_service set_controller_reference cw d)
                    >>= λ service.
                        patched cw (codes "cannot apply the service") w₂
                          (cl.patch_service cw.metadata.uid service w₂)
                        >>= λ (s, w₃). ok (clean_and_record cw d s w₃)

    reconcile_got : Got ContainerizedWorkload → W → Result Stop (Outcome W)
    unfolding reconcile_workload
    reconcile_got (found cw) w = reconcile_workload cw w
    reconcile_got missing w = ok (record { wait = false; failure = none; world = w })
    reconcile_got (failed e) w = ok (record { wait = false; failure = some e; world = w })

    -- Reconcile
    unfoldable pub reconcile : GoString → GoString → W → Result Stop (Outcome W)
    unfolding reconcile_got
    reconcile namespace name w = reconcile_got (cl.get_workload namespace name w) w
