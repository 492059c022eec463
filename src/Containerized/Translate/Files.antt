-- ===== src/Containerized/Translate/Files.antt =====
-- translate.go: the Deployment and the ConfigMaps of one workload fit together.
use oam_kubernetes_runtime.Base.{
  GoString, false, some, List, [], ◌∷◌, ◌++◌, ok, >>=-eq-ok, Mem, Mem-append_left, Mem-append_right,
  Option-cases, ok_inj, subst, inl, inr, ◌≡◌, refl, sym, ap, ◌∙◌,
}
use oam_kubernetes_runtime.Containerized.Types.{
  Container, ContainerConfigFile, ContainerizedWorkload,
}
use oam_kubernetes_runtime.Containerized.Kube
use oam_kubernetes_runtime.Containerized.Kube.{
  PodSpec, Deployment, ConfigMap, Volume, VolumeMount, config_map,
}
use oam_kubernetes_runtime.Containerized.Translate.Paths.{
  path_split, append-path_split, generate_config_map_name,
}
use oam_kubernetes_runtime.Containerized.Translate.Parts.{
  translate_volumes, translate_config_file_to_volume,
}
use oam_kubernetes_runtime.Containerized.Translate.Objects.{
  translate_config_files, translate_container, translate_containers, translate_container_workload,
  config_map_of, config_maps_of_files, config_maps_of_containers, translate_config_maps, pass_head,
  pass_label, empty_pod,
}

abbrev config_volume : GoString → Volume
config_volume name = record { name = name; source = config_map name }

abbrev config_mount : GoString → ContainerConfigFile → VolumeMount
config_mount name cf = record {
  name = name;
  mount_path = (path_split cf.path).0;
  read_only = false;
}

module _ (wl_name container_name : GoString) (cf : ContainerConfigFile) (text : GoString)
    (has_value : cf.value ≡ some text) where
  abbrev name_of : GoString
  name_of = generate_config_map_name cf wl_name container_name

  config_volume_made :
      translate_config_file_to_volume cf wl_name container_name
      ≡ ok (config_volume name_of, config_mount name_of cf)
  unfolding translate_config_file_to_volume
  config_volume_made = rw has_value refl

  abbrev AreMounted : List Volume × List VolumeMount → Type 0
  AreMounted r = Mem (config_volume name_of) r.0 × Mem (config_mount name_of cf) r.1

  head_mounted :
      (x : ContainerConfigFile) (p : Volume × VolumeMount)
      → translate_config_file_to_volume x wl_name container_name ≡ ok p
      → cf ≡ x
      → p ≡ (config_volume name_of, config_mount name_of cf)
  head_mounted x p made e = ok_inj (sym made ∙ rw (← e) config_volume_made)

  file_mounted :
      (cfs : List ContainerConfigFile) (r : List Volume × List VolumeMount)
      → translate_config_files cfs wl_name container_name ≡ ok r
      → Mem cf cfs
      → AreMounted r
  unfolding translate_config_files
  file_mounted [] r h m = absurd m
  file_mounted (x ∷ cfs) r h m =
      let (p, made, h') =
        >>=-eq-ok (translate_config_file_to_volume x wl_name container_name) _ h in
      let (q, rest, h'') = >>=-eq-ok (translate_config_files cfs wl_name container_name) _ h' in
      subst AreMounted (ok_inj h'') (elim m [
        | inl e ↦
            let made' = head_mounted x p made e in
            (inl (sym (ap (λ s. s.0) made')), inl (sym (ap (λ s. s.1) made')))
        | inr m' ↦ let both = file_mounted cfs q rest m' in (inr both.0, inr both.1)
      ])

-- What a later container adds keeps what the pod has.
abbrev Within : PodSpec → PodSpec → Type 0
Within pod pod' =
    ((v : Volume) → Mem v pod.volumes → Mem v pod'.volumes)
    × ((kc : Kube.Container) → Mem kc pod.containers → Mem kc pod'.containers)

containers_kept :
    (wl_name : GoString) (cs : List Container) (pod pod' : PodSpec)
    → translate_containers wl_name cs pod ≡ ok pod'
    → Within pod pod'
unfolding translate_containers
containers_kept wl_name [] pod pod' h = subst (λ p. Within pod p) (ok_inj h) (λ v m. m, λ kc m. m)
containers_kept wl_name (c ∷ cs) pod pod' h =
    let (p, made, h') = >>=-eq-ok (translate_container wl_name c) _ h in
    let later = containers_kept wl_name cs _ pod' h' in
    (
      λ v m. later.0 v (Mem-append_left v pod.volumes p.0 m),
      λ kc m. later.1 kc (Mem-append_left kc pod.containers (p.1 ∷ []) m),
    )

-- The container of the pod for a container of the workload, with the volumes of its files.
abbrev IsAdded : GoString → Container → PodSpec → Type 0
IsAdded wl_name c pod =
    (p : List Volume × Kube.Container) × (translate_container wl_name c ≡ ok p)
    × Mem p.1 pod.containers
    × ((v : Volume) → Mem v p.0 → Mem v pod.volumes)

container-IsAdded :
    (wl_name : GoString) (c : Container) (cs : List Container) (pod pod' : PodSpec)
    → translate_containers wl_name cs pod ≡ ok pod'
    → Mem c cs
    → IsAdded wl_name c pod'
unfolding translate_containers
container-IsAdded wl_name c [] pod pod' h m = absurd m
container-IsAdded wl_name c (x ∷ cs) pod pod' h m =
    let (p, made, h') = >>=-eq-ok (translate_container wl_name x) _ h in
    let later = containers_kept wl_name cs _ pod' h' in
    elim m [
      | inl e ↦ (
        p,
        rw e made,
        later.1 p.1 (Mem-append_right p.1 pod.containers (p.1 ∷ []) (inl refl)),
        λ v m'. later.0 v (Mem-append_right v pod.volumes p.0 m'),
      )
      | inr m' ↦ container-IsAdded wl_name c cs _ pod' h' m'
    ]

-- The config map of a file with a value is among those of its container, and of the workload.
module _ (cw : ContainerizedWorkload) (cf : ContainerConfigFile) (text : GoString)
    (has_value : cf.value ≡ some text) where
  mem-config_maps_of_files :
      (container_name : GoString) (cfs : List ContainerConfigFile)
      → Mem cf cfs
      → Mem (config_map_of cw container_name cf text) (config_maps_of_files cw container_name cfs)
  unfolding config_maps_of_files
  mem-config_maps_of_files container_name [] m = absurd m
  mem-config_maps_of_files container_name (x ∷ cfs) (inl e) =
      let has_value' : x.value ≡ some text = rw (← e) has_value in rw has_value' (inl (rw e refl))
  mem-config_maps_of_files container_name (x ∷ cfs) (inr m) = elim (Option-cases x.value) [
    | inl e ↦ rw e (mem-config_maps_of_files container_name cfs m)
    | inr (y, e) ↦ rw e (inr (mem-config_maps_of_files container_name cfs m))
  ]

  mem-config_maps_of_containers :
      (c : Container) (cs : List Container)
      → Mem c cs
      → Mem cf c.config_files
      → Mem (config_map_of cw c.name cf text) (config_maps_of_containers cw cs)
  unfolding config_maps_of_containers
  mem-config_maps_of_containers c [] m k = absurd m
  mem-config_maps_of_containers c (x ∷ cs) (inl e) k =
      Mem-append_left _ (config_maps_of_files cw x.name x.config_files) _
        (rw (← e) (mem-config_maps_of_files c.name c.config_files k))
  mem-config_maps_of_containers c (x ∷ cs) (inr m) k =
      Mem-append_right _ (config_maps_of_files cw x.name x.config_files) _
        (mem-config_maps_of_containers c cs m k)

-- A text is at a path of a container: a config map holds it under the path's file name, a volume of
-- the pod is that config map, and the container mounts the volume at the path's directory.
pub record IsAt (cms : List ConfigMap) (d : Deployment) (container_name path text : GoString)
    : Type 0 where
  pub container : Kube.Container
  pub mount : VolumeMount
  pub map : ConfigMap
  pub key : GoString
  pub is_container : Mem container d.template.spec.containers
  pub is_named : container.name ≡ container_name
  pub is_mounted : Mem mount container.volume_mounts
  pub is_volume : Mem (config_volume map.head.name) d.template.spec.volumes
  pub of_volume : mount.name ≡ map.head.name
  pub is_map : Mem map cms
  pub same_namespace : map.head.namespace ≡ d.head.namespace
  pub holds : map.contents ≡ (key, text) ∷ []
  pub whole_path : mount.mount_path ++ key ≡ path

-- What a container's translation has for a file of it.
container_mounted :
    (wl_name : GoString) (c : Container) (p : List Volume × Kube.Container)
    (cf : ContainerConfigFile) (text : GoString)
    → cf.value ≡ some text
    → translate_container wl_name c ≡ ok p
    → Mem cf c.config_files
    → Mem (config_volume (generate_config_map_name cf wl_name c.name)) p.0
      × Mem (config_mount (generate_config_map_name cf wl_name c.name) cf) p.1.volume_mounts
      × (p.1.name ≡ c.name)
unfolding translate_container
container_mounted wl_name c p cf text has_value made m =
    let (q, files, h) = >>=-eq-ok (translate_config_files c.config_files wl_name c.name) _ made in
    let both = file_mounted wl_name c.name cf text has_value c.config_files q files m in
    subst
      (λ (r : List Volume × Kube.Container).
        Mem (config_volume (generate_config_map_name cf wl_name c.name)) r.0
        × Mem (config_mount (generate_config_map_name cf wl_name c.name) cf) r.1.volume_mounts
        × (r.1.name ≡ c.name))
      (ok_inj h) (both.0, Mem-append_right _ (translate_volumes c.resources) q.1 both.1, refl)

-- Each config file of a container that has a value is at its path in a translated workload: its text is
-- in one of the workload's config maps, in the namespace of the Deployment, under the name that ends
-- the path; a volume of the pod is that config map; and the container of that name mounts the volume
-- at the rest of the path.
pub translate_container_workload-IsAt :
    (cw : ContainerizedWorkload) (d : Deployment) (c : Container) (cf : ContainerConfigFile)
    (text : GoString)
    → translate_container_workload cw ≡ ok d
    → Mem c cw.spec.containers
    → Mem cf c.config_files
    → cf.value ≡ some text
    → IsAt (translate_config_maps cw) d c.name cf.path text
unfolding translate_container_workload translate_config_maps config_map_of pass_head pass_label
translate_container_workload-IsAt cw d c cf text h m k has_value =
    let (pod, made, h') =
      >>=-eq-ok (translate_containers cw.metadata.name cw.spec.containers (empty_pod cw)) _ h in
    let (p, of_c, added, volumes) =
      container-IsAdded cw.metadata.name c cw.spec.containers _ pod made m in
    let (volume, mount, named) = container_mounted cw.metadata.name c p cf text has_value of_c k in
    subst (λ (r : Deployment). IsAt (translate_config_maps cw) r c.name cf.path text) (ok_inj h')
      (record {
        container = p.1;
        mount = config_mount (generate_config_map_name cf cw.metadata.name c.name) cf;
        map = config_map_of cw c.name cf text;
        key = (path_split cf.path).1;
        is_container = added;
        is_named = named;
        is_mounted = mount;
        is_volume = volumes _ volume;
        of_volume = refl;
        is_map = mem-config_maps_of_containers cw cf text has_value c cw.spec.containers m k;
        same_namespace = refl;
        holds = refl;
        whole_path = append-path_split cf.path;
      })
