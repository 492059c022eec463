-- ===== src/Containerized/Types.antt =====
-- apis/core/v1alpha2/core_workload_types.go: the ContainerizedWorkload. A resource.Quantity is its
-- text, since it is only copied; an int32 is the 64-bit pattern of its value.
use oam_kubernetes_runtime.Base.{ℕ, GoString, codes, Bool, Option, List}
use oam_kubernetes_runtime.Api.{ObjectMeta, TypedReference, IntOrString}

pub record SecretKeySelector : Type 0 where
  pub name : GoString
  pub key : GoString

-- CPUResources, MemoryResources and GPUResources are one quantity each.
pub record CpuResources : Type 0 where
  pub required : GoString

pub record MemoryResources : Type 0 where
  pub required : GoString

pub record GpuResources : Type 0 where
  pub required : GoString

pub record DiskResource : Type 0 where
  pub required : GoString
  pub ephemeral : Option Bool

abbrev pub volume_access_mode_ro : GoString
volume_access_mode_ro = codes "RO"

pub record VolumeResource : Type 0 where
  pub name : GoString
  pub mount_path : GoString
  pub access_mode : Option GoString
  pub sharing_policy : Option GoString
  pub disk : Option DiskResource

pub record ExtendedResource : Type 0 where
  pub name : GoString
  pub required : IntOrString

pub record ContainerResources : Type 0 where
  pub cpu : CpuResources
  pub memory : MemoryResources
  pub gpu : Option GpuResources
  pub volumes : List VolumeResource
  pub extended : List ExtendedResource

pub record ContainerEnvVar : Type 0 where
  pub name : GoString
  pub value : Option GoString
  pub from_secret : Option SecretKeySelector

pub record ContainerConfigFile : Type 0 where
  pub path : GoString
  pub value : Option GoString
  pub from_secret : Option SecretKeySelector

pub record ContainerPort : Type 0 where
  pub name : GoString
  pub port : ℕ
  pub protocol : Option GoString

pub record ExecProbe : Type 0 where
  pub command : List GoString

pub record HttpHeader : Type 0 where
  pub name : GoString
  pub value : GoString

pub record HttpGetProbe : Type 0 where
  pub path : GoString
  pub port : ℕ
  pub http_headers : List HttpHeader

pub record TcpSocketProbe : Type 0 where
  pub port : ℕ

pub record ContainerHealthProbe : Type 0 where
  pub exec : Option ExecProbe
  pub http_get : Option HttpGetProbe
  pub tcp_socket : Option TcpSocketProbe
  pub initial_delay_seconds : Option ℕ
  pub period_seconds : Option ℕ
  pub timeout_seconds : Option ℕ
  pub success_threshold : Option ℕ
  pub failure_threshold : Option ℕ

pub record Container : Type 0 where
  pub name : GoString
  pub image : GoString
  pub resources : Option ContainerResources
  pub command : List GoString
  pub arguments : List GoString
  pub environment : List ContainerEnvVar
  pub config_files : List ContainerConfigFile
  pub ports : List ContainerPort
  pub liveness_probe : Option ContainerHealthProbe
  pub readiness_probe : Option ContainerHealthProbe
  pub image_pull_secret : Option GoString

pub record ContainerizedWorkloadSpec : Type 0 where
  pub operating_system : Option GoString
  pub cpu_architecture : Option GoString
  pub containers : List Container

pub record ContainerizedWorkloadStatus : Type 0 where
  pub resources : List TypedReference

pub record ContainerizedWorkload : Type 0 where
  pub metadata : ObjectMeta
  pub spec : ContainerizedWorkloadSpec
  pub status : ContainerizedWorkloadStatus
