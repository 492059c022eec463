-- ===== src/Containerized/Tests.antt =====
-- A workload of one container with two config files, its translation, and a cluster that has at most
-- one Deployment.
use oam_kubernetes_runtime.Base.{
  GoString, codes, ◌==◌, ==_iff, true, ◌&&◌, Option, none, some, List, [], ◌∷◌, if◌then◌else◌,
  Result, ok, err, IsOk, All, lookup, ok_inj, ◌≡◌, ◌↔◌, refl, inl,
}
use oam_kubernetes_runtime.Api.{TypedReference}
use oam_kubernetes_runtime.Api.Fieldpath.{Got, found, missing}
use oam_kubernetes_runtime.Samples.{sample_meta, sample_reference}
use oam_kubernetes_runtime.Containerized.Types.{
  Container, ContainerConfigFile, ContainerizedWorkload,
}
use oam_kubernetes_runtime.Containerized.Kube.{Head, Deployment}
use oam_kubernetes_runtime.Containerized.Translate.Paths.{
  path_split, fnv_sum32, generate_config_map_name,
}
use oam_kubernetes_runtime.Containerized.Translate.Parts.{panic, translate_config_file_to_volume}
use oam_kubernetes_runtime.Containerized.Translate.Objects.{
  translate_container_workload, translate_containers, translate_container, translate_config_files,
  translate_config_maps, service_injector, pass_label,
}
use oam_kubernetes_runtime.Containerized.Translate.Files.{IsAt, translate_container_workload-IsAt}
use oam_kubernetes_runtime.Containerized.Render.{
  render_deployment, render_service, render_injected, owned, with_owners,
}
use oam_kubernetes_runtime.Containerized.Selection.{
  Selects, render_service-Selects, render_service-panics,
}
use oam_kubernetes_runtime.Containerized.Sources.{HasSource, translate_container_workload-is_ok}
use oam_kubernetes_runtime.Containerized.Controller.{
  Client, is_deployment, is_service, cleanup_resources, clean_and_record,
}
use oam_kubernetes_runtime.Containerized.Cleanup.{cleanup_resources-steady}
use oam_kubernetes_runtime.Containerized.Recreated.{Deletes, clean_and_record-missing}

split_path :
    (path_split (codes "/etc/app/a.conf") ≡ (codes "/etc/app/", codes "a.conf"))
    × (path_split (codes "a.conf") ≡ ([], codes "a.conf"))
unfolding path_split
split_path = (refl, refl)

-- The test vector of FNV-1a for "foobar".
fnv_foobar : fnv_sum32 2166136261 (codes "foobar") ≡ 0xbf9cf968
unfolding fnv_sum32
fnv_foobar = refl

abbrev file : ContainerConfigFile
file = record { path = codes "/etc/app/a.conf"; value = some (codes "debug"); from_secret = none }

abbrev secret_file : ContainerConfigFile
secret_file = record {
  path = codes "/etc/app/key";
  value = none;
  from_secret = some (record { name = codes "credentials"; key = codes "token" });
}

abbrev container : Container
container = record {
  name = codes "main";
  image = codes "nginx";
  resources = none;
  command = [];
  arguments = [];
  environment = [];
  config_files = file ∷ secret_file ∷ [];
  ports = record { name = codes "http"; port = 80; protocol = none } ∷ [];
  liveness_probe = none;
  readiness_probe = none;
  image_pull_secret = none;
}

abbrev workload : ContainerizedWorkload
workload = record {
  metadata = record (sample_meta (codes "web")) {
    uid = codes "w1";
    labels = some ((codes "containerizedworkload.oam.crossplane.io", codes "other") ∷ []);
  };
  spec = record { operating_system = none; cpu_architecture = none; containers = container ∷ [] };
  status = record { resources = [] };
}

abbrev owner_only : GoString → GoString → Head → Result GoString (List GoString)
owner_only namespace uid h = ok (uid ∷ [])

abbrev translated : IsOk (translate_container_workload workload)
unfolding translate_container_workload translate_containers translate_container
    translate_config_files translate_config_file_to_volume generate_config_map_name
translated = (_, refl)

translate_container_workload-IsAt_example :
    IsAt (translate_config_maps workload) translated.0 (codes "main") file.path (codes "debug")
translate_container_workload-IsAt_example =
    translate_container_workload-IsAt workload translated.0 container file (codes "debug")
      translated.1 (inl refl) (inl refl) refl

translate_container_workload-is_ok_example :
    IsOk (translate_container_workload workload)
    ↔ All (λ c. All HasSource c.config_files) (container ∷ [])
translate_container_workload-is_ok_example = translate_container_workload-is_ok workload

abbrev deployed : IsOk (render_deployment owner_only workload)
unfolding render_deployment owned with_owners translate_container_workload translate_containers
    translate_container translate_config_files translate_config_file_to_volume
deployed = (_, refl)

abbrev served : IsOk (render_service owner_only workload deployed.0)
unfolding render_service render_injected service_injector owned with_owners deployed pass_label
served = (_, refl)

render_service-Selects_example :
    Selects deployed.0.match_labels deployed.0.template.labels
    × Selects served.0.selector deployed.0.template.labels
    × (served.0.head.namespace ≡ workload.metadata.namespace)
unfolding lookup
render_service-Selects_example =
    render_service-Selects owner_only workload deployed.0 served.0 (refl, tt) deployed.1 served.1

abbrev bare : ContainerizedWorkload
bare = record workload { spec = record workload.spec { containers = [] } }

abbrev bare_deployed : IsOk (render_deployment owner_only bare)
unfolding render_deployment owned with_owners translate_container_workload translate_containers
bare_deployed = (_, refl)

render_service-panics_example :
    (render_service owner_only bare bare_deployed.0 ≡ err panic) ↔ (bare.spec.containers ≡ [])
render_service-panics_example =
    render_service-panics owner_only bare bare_deployed.0 bare_deployed.1

-- A cluster with at most one Deployment, in which every call is granted.
abbrev get_named : GoString → GoString → Option Deployment → Got Deployment
get_named namespace name none = missing
get_named namespace name (some d) =
    if d.head.namespace == namespace && d.head.name == name then found d else missing

abbrev single : Client (Option Deployment)
single = record {
  get_workload = λ _ _ _. found workload;
  patch_deployment = λ _ d _. ok (d, some d);
  patch_config_map = λ _ _ w. ok w;
  patch_service = λ _ s w. ok (s, w);
  get_deployment = get_named;
  get_service = λ _ _ _. missing;
  delete_deployment = λ _ _. ok none;
  delete_service = λ _ w. ok w;
  update_status = λ _ w. ok w;
  patch_condition = λ _ _ w. ok w;
}

single-Deletes : Deletes single
single-Deletes = record {
  gone = λ n m d w w' g h. rw (← ok_inj h) refl;
  by_delete_deployment = λ n m d w w' g h. rw (← ok_inj h) refl;
  by_delete_service = λ n m s w w' g h. rw (← ok_inj h) g;
  by_update_status = λ n m c w w' g h. rw (← ok_inj h) g;
  by_patch_condition = λ n m c k w w' g h. rw (← ok_inj h) g;
}

-- The Deployment of the server, and the entry of one that was deleted before.
abbrev live : Deployment
live = record deployed.0 {
  head = record deployed.0.head {
    name = codes "web";
    namespace = codes "default";
    uid = codes "d2";
  };
}

abbrev stale : TypedReference
stale = record (sample_reference (codes "web")) { uid = codes "d1" }

abbrev listed : ContainerizedWorkload
listed = record workload { status = record { resources = stale ∷ [] } }

named : get_named (codes "default") (codes "web") (some live) ≡ found live
unfolding ◌==◌
named = refl

stale-is_deployment : is_deployment stale ≡ true
unfolding is_deployment ◌==◌
stale-is_deployment = refl

not_equal : ¬ ((codes "d1" == codes "d2") ≡ true)
unfolding ◌==◌
not_equal h = cc

not_service : ¬ (is_service stale ≡ true)
unfolding is_service ◌==◌
not_service h = cc

clean_and_record-missing_example :
    get_named
      (codes "default")
      (codes "web")
      (clean_and_record single listed live served.0 (some live)).world
    ≡ missing
clean_and_record-missing_example =
    clean_and_record-missing single single-Deletes listed live served.0 stale [] (some live) none
      refl stale-is_deployment refl (λ e. not_equal ((==_iff (codes "d1") (codes "d2")).1 e)) named
      refl

cleanup_resources-steady_example :
    cleanup_resources single (codes "default") (codes "d1") (codes "s1") (stale ∷ []) none
    ≡ (none, none)
cleanup_resources-steady_example =
    cleanup_resources-steady single (codes "default") (codes "d1") (codes "s1") (stale ∷ []) none
      ((λ _. refl, λ e. absurd (not_service e)), tt)
