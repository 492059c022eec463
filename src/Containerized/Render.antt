-- ===== src/Containerized/Render.antt =====
-- containerizedworkload_controller_helper.go: renderDeployment, renderService and renderConfigMaps.
-- The owner references that ctrl.SetControllerReference gives an object, from the owner's namespace
-- and UID, are a parameter.
use oam_kubernetes_runtime.Base.{
  GoString, codes, is_empty, Option, none, some, List, [], ◌∷◌, map, if◌then◌else◌, Result, ok, err,
  ◌>>=◌,
}
use oam_kubernetes_runtime.Containerized.Types.{ContainerizedWorkload}
use oam_kubernetes_runtime.Containerized.Kube
use oam_kubernetes_runtime.Containerized.Kube.{
  Head, PodSpec, Deployment, Service, ServicePort, ConfigMap,
}
use oam_kubernetes_runtime.Containerized.Translate.Parts.{TranslateError, error, panic}
use oam_kubernetes_runtime.Containerized.Translate.Objects.{
  translate_container_workload, translate_config_maps, service_injector,
}

abbrev pub protocol_tcp : GoString
protocol_tcp = codes "TCP"

unfoldable pub set_protocol : Kube.ContainerPort → Kube.ContainerPort
set_protocol p = if is_empty p.protocol then record p { protocol = protocol_tcp } else p

unfoldable pub set_protocols : Kube.Container → Kube.Container
set_protocols c = record c { ports = map set_protocol c.ports }

unfoldable pub set_service_protocol : ServicePort → ServicePort
set_service_protocol p = record p { protocol = protocol_tcp }

-- corev1.ServiceTypeClusterIP
abbrev cluster_ip : GoString
cluster_ip = codes "ClusterIP"

unfoldable pub with_owners : Head → Result GoString (List GoString) → Result TranslateError Head
with_owners h (ok owners) = ok (record h { owners = owners })
with_owners h (err e) = err (error e)

module _
    (set_controller_reference : GoString → GoString → Head → Result GoString (List GoString)) where
  unfoldable pub owned : GoString → GoString → Head → Result TranslateError Head
  unfolding with_owners
  owned namespace uid h = with_owners h (set_controller_reference namespace uid h)

  unfoldable pub render_deployment : ContainerizedWorkload → Result TranslateError Deployment
  render_deployment cw = translate_container_workload cw >>= λ d.
      let spec = record d.template.spec {
        containers = map set_protocols d.template.spec.containers;
      } in
      owned cw.metadata.namespace cw.metadata.uid d.head >>= λ h.
      ok (record d { head = h; replicas = none; template = record d.template { spec = spec } })

  -- The Service is resources[1], which panics where the injector has added nothing.
  unfoldable pub render_injected :
      ContainerizedWorkload → Option Service → Result TranslateError Service
  render_injected cw none = err panic
  render_injected cw (some s) =
      owned cw.metadata.namespace cw.metadata.uid
        (record s.head { namespace = cw.metadata.namespace })
      >>= λ h.
          ok (record s { head = h; type = cluster_ip; ports = map set_service_protocol s.ports })

  unfoldable pub render_service : ContainerizedWorkload → Deployment → Result TranslateError Service
  unfolding render_injected
  render_service cw d = render_injected cw (service_injector cw (d ∷ []))

  unfoldable pub own_config_maps :
      Deployment → List ConfigMap → Result TranslateError (List ConfigMap)
  own_config_maps d [] = ok []
  own_config_maps d (cm ∷ cms) = owned d.head.namespace d.head.uid cm.head >>= λ h.
      own_config_maps d cms >>= λ rest. ok (record cm { head = h } ∷ rest)

  unfoldable pub render_config_maps :
      ContainerizedWorkload → Deployment → Result TranslateError (List ConfigMap)
  render_config_maps cw d = own_config_maps d (translate_config_maps cw)
