-- ===== src/Containerized/Translate/Parts.antt =====
-- translate.go: the parts of a container.
use oam_kubernetes_runtime.Base.{
  ℕ, GoString, codes, ◌==◌, Bool, false, Option, none, some, List, [], ◌∷◌, map, Map, Result, ok,
  err,
}
use oam_kubernetes_runtime.Containerized.Types
use oam_kubernetes_runtime.Containerized.Types.{
  ContainerResources, VolumeResource, ContainerEnvVar, ContainerConfigFile, ContainerHealthProbe,
  HttpGetProbe, ExecProbe, TcpSocketProbe, volume_access_mode_ro,
}
use oam_kubernetes_runtime.Containerized.Kube
use oam_kubernetes_runtime.Containerized.Kube.{
  VolumeMount, EnvVar, value, secret_key_ref, Probe, HttpGetAction, ExecAction, TcpSocketAction,
  Volume, config_map, secret,
}
use oam_kubernetes_runtime.Containerized.Translate.Paths.{path_split, generate_config_map_name}

-- How a translation fails: at an object of another type, or by a panic at a nil pointer or past the
-- end of a slice.
pub data TranslateError : Type 0 where
  error : GoString → TranslateError
  panic : TranslateError

abbrev is_read_only : Option GoString → Bool
is_read_only none = false
is_read_only (some m) = m == volume_access_mode_ro

unfoldable pub translate_volume : VolumeResource → VolumeMount
translate_volume v = record {
  name = v.name;
  mount_path = v.mount_path;
  read_only = is_read_only v.access_mode;
}

unfoldable pub translate_requests : Option ContainerResources → Map GoString
translate_requests none = []
translate_requests (some r) =
    (codes "cpu", r.cpu.required) ∷ (codes "memory", r.memory.required) ∷ []

unfoldable pub translate_volumes : Option ContainerResources → List VolumeMount
translate_volumes none = []
translate_volumes (some r) = map translate_volume r.volumes

abbrev protocol_text : Option GoString → GoString
protocol_text none = []
protocol_text (some p) = p

unfoldable pub translate_port : Types.ContainerPort → Kube.ContainerPort
translate_port p = record {
  name = p.name;
  container_port = p.port;
  protocol = protocol_text p.protocol;
}

-- An entry with neither a value nor a secret is left out; a value goes first.
unfoldable pub translate_env : List ContainerEnvVar → List EnvVar
translate_env [] = []
translate_env (e ∷ es) =
    let rest = translate_env es in
    elim e.value [
      | some v ↦ record { name = e.name; source = value v } ∷ rest
      | none ↦ elim e.from_secret [
        | some s ↦ record { name = e.name; source = secret_key_ref s.name s.key } ∷ rest
        | none ↦ rest
      ]
    ]

abbrev seconds : Option ℕ → ℕ
seconds none = 0
seconds (some n) = n

translate_header : Types.HttpHeader → Kube.HttpHeader
translate_header h = record { name = h.name; value = h.value }

translate_http_get : Option HttpGetProbe → Option HttpGetAction
unfolding translate_header
translate_http_get none = none
translate_http_get (some h) =
    some
      (record { path = h.path; port = h.port; http_headers = map translate_header h.http_headers })

translate_exec : Option ExecProbe → Option ExecAction
translate_exec none = none
translate_exec (some e) = some (record { command = e.command })

translate_tcp_socket : Option TcpSocketProbe → Option TcpSocketAction
translate_tcp_socket none = none
translate_tcp_socket (some t) = some (record { port = t.port })

-- Both probes are translated by the same statements.
unfoldable pub translate_probe : Option ContainerHealthProbe → Option Probe
unfolding translate_http_get translate_exec translate_tcp_socket
translate_probe none = none
translate_probe (some p) = some (record {
  initial_delay_seconds = seconds p.initial_delay_seconds;
  timeout_seconds = seconds p.timeout_seconds;
  period_seconds = seconds p.period_seconds;
  success_threshold = seconds p.success_threshold;
  failure_threshold = seconds p.failure_threshold;
  http_get = translate_http_get p.http_get;
  exec = translate_exec p.exec;
  tcp_socket = translate_tcp_socket p.tcp_socket;
})

-- translateConfigFileToVolume, which reads the secret of a file that has no value.
unfoldable pub translate_config_file_to_volume :
    ContainerConfigFile → GoString → GoString → Result TranslateError (Volume × VolumeMount)
translate_config_file_to_volume cf wl_name container_name = elim cf.value [
  | some _ ↦
      let name = generate_config_map_name cf wl_name container_name in
      ok (
        record { name = name; source = config_map name },
        record { name = name; mount_path = (path_split cf.path).0; read_only = false },
      )
  | none ↦ elim cf.from_secret [
    | some s ↦ ok (
      record { name = s.name; source = secret s.name ((s.key, s.key) ∷ []) },
      record { name = s.name; mount_path = cf.path; read_only = false },
    )
    | none ↦ err panic
  ]
]
