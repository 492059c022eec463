-- ===== src/Containerized/Translate/Objects.antt =====
-- translate.go: TranslateContainerWorkload, TranslateConfigMaps and ServiceInjector, with PassLabel
-- and PassLabelAndAnnotation of pkg/oam/util/helper.go on the objects that they make.
use oam_kubernetes_runtime.Base.{
  GoString, codes, Option, none, some, List, [], ◌∷◌, ◌++◌, map, Map, insert, Result, ok, ◌>>=◌,
}
use oam_kubernetes_runtime.Util.{merge_map_override_with_dst}
use oam_kubernetes_runtime.Containerized.Types.{
  Container, ContainerConfigFile, ContainerizedWorkload,
}
use oam_kubernetes_runtime.Containerized.Kube
use oam_kubernetes_runtime.Containerized.Kube.{
  Head, PodSpec, PodTemplate, Deployment, Service, ServicePort, ConfigMap, Volume, VolumeMount,
}
use oam_kubernetes_runtime.Containerized.Translate.Paths.{path_split, generate_config_map_name}
use oam_kubernetes_runtime.Containerized.Translate.Parts.{
  TranslateError, translate_requests, translate_volumes, translate_port, translate_env,
  translate_probe, translate_config_file_to_volume,
}

abbrev pub label_key : GoString
label_key = codes "containerizedworkload.oam.crossplane.io"

-- PassLabel, to a pod template
unfoldable pub pass_label : Option (Map GoString) → PodTemplate → PodTemplate
pass_label labels t = record t { labels = merge_map_override_with_dst labels t.labels }

-- PassLabelAndAnnotation, to an object of Kubernetes
unfoldable pub pass_head : Option (Map GoString) → Option (Map GoString) → Head → Head
pass_head labels annotations h = record h {
  labels = merge_map_override_with_dst labels h.labels;
  annotations = merge_map_override_with_dst annotations h.annotations;
}

abbrev pub entries_of : Option (Map GoString) → Map GoString
entries_of none = []
entries_of (some m) = m

unfoldable pub select_node :
    GoString → Option GoString → Option (Map GoString) → Option (Map GoString)
select_node k none selector = selector
select_node k (some v) selector = some (insert k v (entries_of selector))

-- The loop over the config files of a container: the volumes and the mounts, in order.
unfoldable pub translate_config_files :
    List ContainerConfigFile
    → GoString
    → GoString
    → Result TranslateError (List Volume × List VolumeMount)
translate_config_files [] wl_name container_name = ok ([], [])
translate_config_files (cf ∷ cfs) wl_name container_name =
    translate_config_file_to_volume cf wl_name container_name >>= λ (v, vm).
    translate_config_files cfs wl_name container_name >>= λ (vs, vms). ok (v ∷ vs, vm ∷ vms)

unfoldable pub translate_container :
    GoString → Container → Result TranslateError (List Volume × Kube.Container)
translate_container wl_name c =
    translate_config_files c.config_files wl_name c.name >>= λ (vs, vms). ok (
      vs,
      record {
        name = c.name;
        image = c.image;
        command = c.command;
        args = c.arguments;
        requests = translate_requests c.resources;
        volume_mounts = translate_volumes c.resources ++ vms;
        ports = map translate_port c.ports;
        env = translate_env c.environment;
        liveness_probe = translate_probe c.liveness_probe;
        readiness_probe = translate_probe c.readiness_probe;
      },
    )

abbrev secrets_of : Option GoString → List GoString
secrets_of none = []
secrets_of (some s) = s ∷ []

-- The loop over the containers: what each one appends to the pod.
unfoldable pub translate_containers :
    GoString → List Container → PodSpec → Result TranslateError PodSpec
translate_containers wl_name [] pod = ok pod
translate_containers wl_name (c ∷ cs) pod = translate_container wl_name c >>= λ (vs, kc).
    translate_containers wl_name cs (record pod {
      image_pull_secrets = pod.image_pull_secrets ++ secrets_of c.image_pull_secret;
      volumes = pod.volumes ++ vs;
      containers = pod.containers ++ kc ∷ [];
    })

-- The selector of the Deployment, and the labels of its pods before the workload's own are passed.
abbrev pub workload_labels : ContainerizedWorkload → Map GoString
workload_labels cw = (label_key, cw.metadata.uid) ∷ []

abbrev pub deployment_head : ContainerizedWorkload → Head
deployment_head cw = record {
  kind = codes "Deployment";
  api_version = codes "apps/v1";
  name = cw.metadata.name;
  namespace = cw.metadata.namespace;
  uid = [];
  labels = none;
  annotations = none;
  owners = [];
}

abbrev pub empty_pod : ContainerizedWorkload → PodSpec
empty_pod cw = record {
  node_selector =
      select_node (codes "kubernetes.io/arch") cw.spec.cpu_architecture
        (select_node (codes "beta.kubernetes.io/os") cw.spec.operating_system none);
  image_pull_secrets = [];
  containers = [];
  volumes = [];
}

-- TranslateContainerWorkload: the one object of the list.
unfoldable pub translate_container_workload :
    ContainerizedWorkload → Result TranslateError Deployment
translate_container_workload cw =
    translate_containers cw.metadata.name cw.spec.containers (empty_pod cw) >>= λ pod. ok (record {
      head = pass_head cw.metadata.labels cw.metadata.annotations (deployment_head cw);
      replicas = none;
      match_labels = workload_labels cw;
      template =
          pass_label cw.metadata.labels (record { labels = some (workload_labels cw); spec = pod });
    })

abbrev config_map_head : ContainerizedWorkload → GoString → Head
config_map_head cw name = record {
  kind = codes "ConfigMap";
  api_version = codes "v1";
  name = name;
  namespace = cw.metadata.namespace;
  uid = [];
  labels = none;
  annotations = none;
  owners = [];
}

unfoldable pub config_map_of :
    ContainerizedWorkload → GoString → ContainerConfigFile → GoString → ConfigMap
config_map_of cw container_name cf text = record {
  head =
      pass_head cw.metadata.labels cw.metadata.annotations
        (config_map_head cw (generate_config_map_name cf cw.metadata.name container_name));
  contents = ((path_split cf.path).1, text) ∷ [];
}

unfoldable pub config_maps_of_files :
    ContainerizedWorkload → GoString → List ContainerConfigFile → List ConfigMap
config_maps_of_files cw container_name [] = []
config_maps_of_files cw container_name (cf ∷ cfs) =
    let rest = config_maps_of_files cw container_name cfs in
    elim cf.value [ none ↦ rest | some text ↦ config_map_of cw container_name cf text ∷ rest ]

unfoldable pub config_maps_of_containers : ContainerizedWorkload → List Container → List ConfigMap
config_maps_of_containers cw [] = []
config_maps_of_containers cw (c ∷ cs) =
    config_maps_of_files cw c.name c.config_files ++ config_maps_of_containers cw cs

-- TranslateConfigMaps
unfoldable pub translate_config_maps : ContainerizedWorkload → List ConfigMap
translate_config_maps cw = config_maps_of_containers cw cw.spec.containers

-- The port of the first port of the first container; 32 bits of it are an int.
unfoldable pub service_ports : Head → List Kube.ContainerPort → List ServicePort
service_ports h [] = []
service_ports h (p ∷ ps) =
    record { name = h.name; port = p.container_port; target_port = p.container_port; protocol = [] }
    ∷ []

abbrev pub service_of : ContainerizedWorkload → Deployment → List Kube.ContainerPort → Service
service_of cw d ports = record {
  head = record {
    kind = codes "Service";
    api_version = codes "v1";
    name = d.head.name;
    namespace = d.head.namespace;
    uid = [];
    labels = some (workload_labels cw);
    annotations = none;
    owners = [];
  };
  selector = d.match_labels;
  ports = service_ports d.head ports;
  type = codes "LoadBalancer";
}

-- ServiceInjector on a list of Deployments: what it appends, for the first that has a container.
unfoldable pub service_injector : ContainerizedWorkload → List Deployment → Option Service
service_injector cw [] = none
service_injector cw (d ∷ ds) = elim d.template.spec.containers [
  | [] ↦ service_injector cw ds
  | c ∷ _ ↦ some (service_of cw d c.ports)
]
