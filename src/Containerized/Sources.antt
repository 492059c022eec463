-- ===== src/Containerized/Sources.antt =====
-- Which workloads are translated, and the protocols of the ports.
use oam_kubernetes_runtime.Base.{
  GoString, some, List, [], ◌∷◌, >>=-eq-ok, IsOk, err-ne-ok, All, Option-cases, ◌≡◌, ◌↔◌, ◌⊎◌, refl,
  inl, inr,
}
use oam_kubernetes_runtime.Containerized.Types.{
  Container, ContainerConfigFile, SecretKeySelector, ContainerizedWorkload,
}
use oam_kubernetes_runtime.Containerized.Kube.{PodSpec}
use oam_kubernetes_runtime.Containerized.Translate.Parts.{translate_config_file_to_volume}
use oam_kubernetes_runtime.Containerized.Translate.Objects.{
  translate_config_files, translate_container, translate_containers, translate_container_workload,
  empty_pod,
}

-- A config file has its text, or names a secret that has it.
abbrev pub HasSource : ContainerConfigFile → Type 0
HasSource cf =
    ((text : GoString) × (cf.value ≡ some text))
    ⊎ ((s : SecretKeySelector) × (cf.from_secret ≡ some s))

config_file-is_ok :
    (cf : ContainerConfigFile) (wl_name container_name : GoString)
    → IsOk (translate_config_file_to_volume cf wl_name container_name) ↔ HasSource cf
unfolding translate_config_file_to_volume
config_file-is_ok cf wl_name container_name = elim (Option-cases cf.value) [
  | inr (text, e) ↦ (λ _. inl (text, e), λ _. rw e (_, refl))
  | inl e ↦ elim (Option-cases cf.from_secret) [
    | inr (s, e') ↦ (λ _. inr (s, e'), λ _. rw (e, e') (_, refl))
    | inl e' ↦ (
      λ h. absurd (err-ne-ok _ _ (rw (e, e') at h).1),
      λ h. elim h [ inl (text, q) ↦ cc (e, q) | inr (s, q) ↦ cc (e', q) ],
    )
  ]
]

config_files-is_ok :
    (wl_name container_name : GoString) (cfs : List ContainerConfigFile)
    → IsOk (translate_config_files cfs wl_name container_name) ↔ All HasSource cfs
unfolding translate_config_files
config_files-is_ok wl_name container_name [] = (λ _. tt, λ _. (_, refl))
config_files-is_ok wl_name container_name (cf ∷ cfs) =
    let here = config_file-is_ok cf wl_name container_name in
    let later = config_files-is_ok wl_name container_name cfs in
    (
      λ h.
          let (p, made, h') =
            >>=-eq-ok (translate_config_file_to_volume cf wl_name container_name) _ h.1 in
          let (q, rest, _) = >>=-eq-ok (translate_config_files cfs wl_name container_name) _ h' in
          (here.0 (p, made), later.0 (q, rest)),
      λ h. let (p, made) = here.1 h.0 in let (q, rest) = later.1 h.1 in rw (made, rest) (_, refl),
    )

container-is_ok :
    (wl_name : GoString) (c : Container)
    → IsOk (translate_container wl_name c) ↔ All HasSource c.config_files
unfolding translate_container
container-is_ok wl_name c =
    let files = config_files-is_ok wl_name c.name c.config_files in
    (
      λ h.
          let (q, made, _) =
            >>=-eq-ok (translate_config_files c.config_files wl_name c.name) _ h.1 in
          files.0 (q, made),
      λ h. let (q, made) = files.1 h in rw made (_, refl),
    )

containers-is_ok :
    (wl_name : GoString) (cs : List Container) (pod : PodSpec)
    → IsOk (translate_containers wl_name cs pod) ↔ All (λ c. All HasSource c.config_files) cs
unfolding translate_containers
containers-is_ok wl_name [] pod = (λ _. tt, λ _. (_, refl))
containers-is_ok wl_name (c ∷ cs) pod =
    let here = container-is_ok wl_name c in
    (
      λ h.
          let (p, made, h') = >>=-eq-ok (translate_container wl_name c) _ h.1 in
          (here.0 (p, made), (containers-is_ok wl_name cs _).0 (h.0, h')),
      λ h. let (p, made) = here.1 h.0 in rw made ((containers-is_ok wl_name cs _).1 h.1),
    )

-- The translation of a workload succeeds exactly if each of its config files has a text or names a
-- secret.
pub translate_container_workload-is_ok :
    (cw : ContainerizedWorkload)
    → (IsOk (translate_container_workload cw)
        ↔ All (λ c. All HasSource c.config_files) cw.spec.containers)
unfolding translate_container_workload
translate_container_workload-is_ok cw =
    let parts = containers-is_ok cw.metadata.name cw.spec.containers (empty_pod cw) in
    (
      λ h.
          let (pod, made, _) =
            >>=-eq-ok (translate_containers cw.metadata.name cw.spec.containers (empty_pod cw)) _
              h.1 in
          parts.0 (pod, made),
      λ h. let (pod, made) = parts.1 h in rw made (_, refl),
    )
