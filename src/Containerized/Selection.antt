-- ===== src/Containerized/Selection.antt =====
-- The Deployment and the Service of a workload select the workload's pods; and when there is none.
use oam_kubernetes_runtime.Base.{
  GoString, Option, none, some, List, [], ◌∷◌, ◌++◌, map, Map, lookup, Result, ok, err, ◌>>=◌,
  >>=-eq-ok, ok_inj, ◌≡◌, ◌≢◌, ◌↔◌, ◌⊎◌, refl, sym, ap, ◌∙◌, inl, inr,
}
use oam_kubernetes_runtime.Util.{merge_map_override_with_dst}
use oam_kubernetes_runtime.Util.Merge.{
  IsMap?, lookup?, first_of, lookup-merge_map_override_with_dst,
}
use oam_kubernetes_runtime.Containerized.Types.{Container, ContainerizedWorkload}
use oam_kubernetes_runtime.Containerized.Kube
use oam_kubernetes_runtime.Containerized.Kube.{Head, PodSpec, Deployment, Service}
use oam_kubernetes_runtime.Containerized.Translate.Parts.{panic}
use oam_kubernetes_runtime.Containerized.Translate.Objects.{
  translate_container, translate_containers, translate_container_workload, workload_labels,
  empty_pod, pass_label, service_injector, service_of,
}
use oam_kubernetes_runtime.Containerized.Render.{
  owned, with_owners, render_deployment, render_injected, render_service, set_protocols,
}

-- A selector picks the objects with these labels.
abbrev pub Selects : Map GoString → Option (Map GoString) → Type 0
Selects selector labels = (k v : GoString) → lookup k selector ≡ some v → lookup? k labels ≡ some v

-- The labels of the pods.
abbrev pod_labels : ContainerizedWorkload → Option (Map GoString)
pod_labels cw = merge_map_override_with_dst cw.metadata.labels (some (workload_labels cw))

-- The workload's own label is not overridden by the labels that are passed to the pods.
workload_labels-Selects :
    (cw : ContainerizedWorkload)
    → IsMap? cw.metadata.labels
    → Selects (workload_labels cw) (pod_labels cw)
unfolding lookup
workload_labels-Selects cw distinct k v h =
    lookup-merge_map_override_with_dst cw.metadata.labels (some (workload_labels cw)) k distinct
      (refl, tt)
    ∙ ap (λ o. first_of o (lookup? k cw.metadata.labels)) h

module _ (set_controller_reference : GoString → GoString → Head → Result GoString (List GoString))
    (cw : ContainerizedWorkload) (d : Deployment)
    (rendered : render_deployment set_controller_reference cw ≡ ok d) where
  -- What rendering makes of the pod.
  rendered_pod :
      (pod : PodSpec) × (translate_containers cw.metadata.name cw.spec.containers (empty_pod cw)
        ≡ ok pod)
      × (d.match_labels ≡ workload_labels cw)
      × (d.template.labels ≡ pod_labels cw)
      × (d.template.spec.containers ≡ map set_protocols pod.containers)
  unfolding render_deployment translate_container_workload pass_label
  rendered_pod =
      let (d₁, translated, h) = >>=-eq-ok (translate_container_workload cw) _ rendered in
      let (pod, made, h') =
        >>=-eq-ok (translate_containers cw.metadata.name cw.spec.containers (empty_pod cw)) _
          translated in
      let (head, _, h'') =
        >>=-eq-ok (owned set_controller_reference cw.metadata.namespace cw.metadata.uid d₁.head) _
          h in
      (pod, made, cc, cc, cc)

-- What the injector does with one Deployment, by the containers of its pod.
module _ (cw : ContainerizedWorkload) (d : Deployment) where
  injected :
      (cs : List Kube.Container)
      → d.template.spec.containers ≡ cs
      → (service_injector cw (d ∷ []) ≡ none) × (cs ≡ [])
        ⊎ ((s : Service) × (service_injector cw (d ∷ []) ≡ some s)
            × (s.selector ≡ d.match_labels)
            × (cs ≢ []))
  unfolding service_injector
  injected [] e = inl (rw e refl, refl)
  injected (c ∷ cs) e = inr (service_of cw d c.ports, rw e refl, refl, λ f. cc)

with_owners-namespace :
    (h : Head) (r : Result GoString (List GoString)) (h' : Head)
    → with_owners h r ≡ ok h'
    → h'.namespace ≡ h.namespace
unfolding with_owners
with_owners-namespace h (ok owners) h' e = ap (λ (x : Head). x.namespace) (sym (ok_inj e))
with_owners-namespace h (err x) h' e = cc

with_owners_panic :
    (h : Head) (r : Result GoString (List GoString)) (make : Head → Service)
    → ¬ ((with_owners h r >>= λ h'. ok (make h')) ≡ err panic)
unfolding with_owners
with_owners_panic h (ok owners) make e = cc
with_owners_panic h (err x) make e = cc

module _ (set_controller_reference : GoString → GoString → Head → Result GoString (List GoString))
    (cw : ContainerizedWorkload) where
  owned-namespace :
      (namespace uid : GoString) (h h' : Head)
      → owned set_controller_reference namespace uid h ≡ ok h'
      → h'.namespace ≡ h.namespace
  unfolding owned
  owned-namespace namespace uid h h' e =
      with_owners-namespace h (set_controller_reference namespace uid h) h' e

  render_injected-ok :
      (o : Option Service) (s : Service)
      → render_injected set_controller_reference cw o ≡ ok s
      → (s₁ : Service) × (o ≡ some s₁)
        × (s.selector ≡ s₁.selector)
        × (s.head.namespace ≡ cw.metadata.namespace)
  unfolding render_injected
  render_injected-ok none s h = cc
  render_injected-ok (some s₁) s h =
      let placed = record s₁.head { namespace = cw.metadata.namespace } in
      let (head, made, e) =
        >>=-eq-ok (owned set_controller_reference cw.metadata.namespace cw.metadata.uid placed) _
          h in
      let kept = owned-namespace cw.metadata.namespace cw.metadata.uid placed head made in
      (s₁, refl, cc, ap (λ (x : Service). x.head.namespace) (sym (ok_inj e)) ∙ kept)

  render_injected-ne-panic :
      (s : Service) → ¬ (render_injected set_controller_reference cw (some s) ≡ err panic)
  unfolding render_injected owned
  render_injected-ne-panic s h =
      with_owners_panic (record s.head { namespace = cw.metadata.namespace })
        (set_controller_reference cw.metadata.namespace cw.metadata.uid _) _ h

  service_selector :
      (d : Deployment) (s : Service)
      → render_service set_controller_reference cw d ≡ ok s
      → (s.selector ≡ d.match_labels) × (s.head.namespace ≡ cw.metadata.namespace)
  unfolding render_service
  service_selector d s h =
      let (s₁, is_s₁, same, placed) = render_injected-ok _ s h in
      elim (injected cw d d.template.spec.containers refl) [
        | inl (missing, _) ↦ (cc (missing, is_s₁), placed)
        | inr (s₂, is_s₂, same', _) ↦ (cc (is_s₁, is_s₂, same, same'), placed)
      ]

  service_panics :
      (d : Deployment)
      → (render_service set_controller_reference cw d ≡ err panic)
        ↔ (d.template.spec.containers ≡ [])
  unfolding render_service
  service_panics d = elim (injected cw d d.template.spec.containers refl) [
    | inl (missing, empty) ↦ (λ _. empty, λ _. rw missing (unfold render_injected in refl))
    | inr (s, is_s, _, full) ↦ (
      λ h. absurd (
          render_injected-ne-panic s
            (ap (render_injected set_controller_reference cw) (sym is_s) ∙ h)),
      λ e. absurd (full e),
    )
  ]

-- The rendered Deployment's selector picks its own pods and so does that of the Service, which stands in
-- the workload's namespace, whatever labels the workload passes on.
pub render_service-Selects :
    (set_controller_reference : GoString → GoString → Head → Result GoString (List GoString))
    (cw : ContainerizedWorkload) (d : Deployment) (s : Service)
    → IsMap? cw.metadata.labels
    → render_deployment set_controller_reference cw ≡ ok d
    → render_service set_controller_reference cw d ≡ ok s
    → Selects d.match_labels d.template.labels
      × Selects s.selector d.template.labels
      × (s.head.namespace ≡ cw.metadata.namespace)
render_service-Selects set_controller_reference cw d s distinct rendered h =
    let (_, _, same, labels, _) = rendered_pod set_controller_reference cw d rendered in
    let selects : Selects d.match_labels d.template.labels =
      rw (same, labels) (workload_labels-Selects cw distinct) in
    let (selector, placed) = service_selector set_controller_reference cw d s h in
    (selects, rw selector selects, placed)

snoc-ne-nil : (kcs : List Kube.Container) (kc : Kube.Container) → kcs ++ kc ∷ [] ≢ []
snoc-ne-nil [] kc = λ e. cc
snoc-ne-nil (x ∷ kcs) kc = λ e. cc

map-eq-nil : (kcs : List Kube.Container) → (map set_protocols kcs ≡ []) ↔ (kcs ≡ [])
map-eq-nil [] = (λ _. refl, λ _. refl)
map-eq-nil (kc ∷ kcs) = (λ e. cc, λ e. cc)

containers_nil :
    (wl_name : GoString) (cs : List Container) (pod pod' : PodSpec)
    → translate_containers wl_name cs pod ≡ ok pod'
    → (pod'.containers ≡ []) ↔ ((pod.containers ≡ []) × (cs ≡ []))
unfolding translate_containers
containers_nil wl_name [] pod pod' h =
    let same = ok_inj h in
    (
      λ e. (ap (λ p. p.containers) same ∙ e, refl),
      λ e. ap (λ (p : PodSpec). p.containers) (sym same) ∙ e.0,
    )
containers_nil wl_name (c ∷ cs) pod pod' h =
    let (p, _, h') = >>=-eq-ok (translate_container wl_name c) _ h in
    (
      λ e. absurd (snoc-ne-nil pod.containers p.1 ((containers_nil wl_name cs _ pod' h').0 e).0),
      λ e. cc,
    )

-- After a workload's Deployment was rendered, the rendering of its Service panics exactly if the
-- workload has no containers.
pub render_service-panics :
    (set_controller_reference : GoString → GoString → Head → Result GoString (List GoString))
    (cw : ContainerizedWorkload) (d : Deployment)
    → render_deployment set_controller_reference cw ≡ ok d
    → (render_service set_controller_reference cw d ≡ err panic) ↔ (cw.spec.containers ≡ [])
render_service-panics set_controller_reference cw d rendered =
    let (pod, made, _, _, containers) = rendered_pod set_controller_reference cw d rendered in
    let empty = containers_nil cw.metadata.name cw.spec.containers (empty_pod cw) pod made in
    let panics = service_panics set_controller_reference cw d in
    let mapped = map-eq-nil pod.containers in
    (
      λ h. (empty.0 (mapped.0 (sym containers ∙ panics.0 h))).1,
      λ e. panics.1 (containers ∙ mapped.1 (empty.1 (refl, e))),
    )
