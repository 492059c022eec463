-- ===== src/Containerized/Kube.antt =====
-- The Kubernetes types appsv1.Deployment, corev1.Service and corev1.ConfigMap with their parts, as
-- far as the translation of a workload fills or reads them.
use oam_kubernetes_runtime.Base.{ℕ, GoString, Map, Bool, Option, List}

-- The type and the metadata of an object; `owners` are the UIDs of its owner references.
pub record Head : Type 0 where
  pub kind : GoString
  pub api_version : GoString
  pub name : GoString
  pub namespace : GoString
  pub uid : GoString
  pub labels : Option (Map GoString)
  pub annotations : Option (Map GoString)
  pub owners : List GoString

pub record VolumeMount : Type 0 where
  pub name : GoString
  pub mount_path : GoString
  pub read_only : Bool

pub record ContainerPort : Type 0 where
  pub name : GoString
  pub container_port : ℕ
  pub protocol : GoString

-- An environment variable of a value, or of a secret's name and key.
pub data EnvSource : Type 0 where
  value : GoString → EnvSource
  secret_key_ref : GoString → GoString → EnvSource

pub record EnvVar : Type 0 where
  pub name : GoString
  pub source : EnvSource

pub record HttpHeader : Type 0 where
  pub name : GoString
  pub value : GoString

pub record HttpGetAction : Type 0 where
  pub path : GoString
  pub port : ℕ
  pub http_headers : List HttpHeader

pub record ExecAction : Type 0 where
  pub command : List GoString

pub record TcpSocketAction : Type 0 where
  pub port : ℕ

pub record Probe : Type 0 where
  pub initial_delay_seconds : ℕ
  pub timeout_seconds : ℕ
  pub period_seconds : ℕ
  pub success_threshold : ℕ
  pub failure_threshold : ℕ
  pub http_get : Option HttpGetAction
  pub exec : Option ExecAction
  pub tcp_socket : Option TcpSocketAction

pub record Container : Type 0 where
  pub name : GoString
  pub image : GoString
  pub command : List GoString
  pub args : List GoString
  pub requests : Map GoString
  pub volume_mounts : List VolumeMount
  pub ports : List ContainerPort
  pub env : List EnvVar
  pub liveness_probe : Option Probe
  pub readiness_probe : Option Probe

-- A config map's name; or a secret's name with the keys to project and their paths.
pub data VolumeSource : Type 0 where
  config_map : GoString → VolumeSource
  secret : GoString → List (GoString × GoString) → VolumeSource

pub record Volume : Type 0 where
  pub name : GoString
  pub source : VolumeSource

pub record PodSpec : Type 0 where
  pub node_selector : Option (Map GoString)
  pub image_pull_secrets : List GoString
  pub containers : List Container
  pub volumes : List Volume

pub record PodTemplate : Type 0 where
  pub labels : Option (Map GoString)
  pub spec : PodSpec

pub record Deployment : Type 0 where
  pub head : Head
  pub replicas : Option ℕ
  pub match_labels : Map GoString
  pub template : PodTemplate

pub record ServicePort : Type 0 where
  pub name : GoString
  pub port : ℕ
  pub target_port : ℕ
  pub protocol : GoString

pub record Service : Type 0 where
  pub head : Head
  pub selector : Map GoString
  pub ports : List ServicePort
  pub type : GoString

pub record ConfigMap : Type 0 where
  pub head : Head
  pub contents : Map GoString
