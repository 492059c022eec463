-- ===== src/Revision/Queue.antt =====
-- component.go: which application configurations the component handler puts on the queue.
use oam_kubernetes_runtime.Base.{ℕ, GoString, some, List, [], All, Any, length, ◌≤◌, ◌≡◌, Sorter}
use oam_kubernetes_runtime.Api.{NamespacedName, ApplicationConfiguration}
use oam_kubernetes_runtime.Revision.{Cluster, revision_key}

-- The configuration has a component of that name.
abbrev pub Uses : GoString → ApplicationConfiguration → Type 0
Uses name a = Any (λ c. c.component_name ≡ name) a.components

abbrev pub request_of : ApplicationConfiguration → NamespacedName
request_of a = record { namespace = a.metadata.namespace; name = a.metadata.name }

-- The request is that of a configuration that uses the component.
abbrev pub IsRequestFor : List ApplicationConfiguration → GoString → NamespacedName → Type 0
IsRequestFor configs name n = Any (λ a. (n ≡ request_of a) × Uses name a) configs

module _ (sorter : Sorter revision_key) (limit : ℕ) (cl : Cluster)
    (configs : List ApplicationConfiguration) (listed : cl.list_app_configs ≡ some configs) where
  -- The queue after an event: requests for configurations that use the component, none exactly if
  -- no configuration does.
  pub Answers : GoString → List NamespacedName → Type 0
  Answers name queue =
      All (IsRequestFor configs name) queue
      × (length queue ≤ 1)
      × (queue ≡ [] → All (λ a. ¬ Uses name a) configs)
