-- ===== src/Revision/Tests.antt =====
-- component.go: the theorems on the component handler at concrete revisions.
use oam_kubernetes_runtime.Base.{
  ℕ, codes, true, none, some, List, [], ◌∷◌, ◌-◌, ◌+◌, ◌≤◌, ◌≡◌, refl, arith, length, map, keep,
  take, drop, All, Mem, inl, inr, insertion_sorter, Sorter, GoString, ◌↔◌,
}
use oam_kubernetes_runtime.Api.{Component, ApplicationConfiguration}
use oam_kubernetes_runtime.Samples.{
  sample_meta, sample_component, sample_item, sample_configuration,
}
use oam_kubernetes_runtime.Revision.{
  construct_revision_name, extract_component_name, ControllerRevision, component, raw, Call,
  other_object, create, with_latest, new_revision, update_status, delete, Cluster, is_revision_diff,
  live_hashes, revision_key, cleanup_controller_revision, create_controller_revision,
}
use oam_kubernetes_runtime.Revision.Names.{extract_component_name-construct_revision_name}
use oam_kubernetes_runtime.Revision.Cleanup.{
  DeletesUnpinned, IsBefore, is_dead, cleanup_controller_revision_safe,
  cleanup_controller_revision_oldest,
}
use oam_kubernetes_runtime.Revision.Live.{Pins, Distinct}
use oam_kubernetes_runtime.Revision.Published.{
  IsRevisionOf, Follows, create_controller_revision_order,
}
use oam_kubernetes_runtime.Revision.Stable.{IsStored, Reacts, create_controller_revision_stable}

abbrev revision_of_web : ℕ → ControllerRevision
revision_of_web n = record {
  name = construct_revision_name (codes "web") n;
  namespace = codes "default";
  owner_uid = [];
  component_label = codes "web";
  revision = n;
  revision_data = other_object;
}

abbrev revisions : List ControllerRevision
revisions = revision_of_web 3 ∷ revision_of_web 1 ∷ revision_of_web 2 ∷ revision_of_web 4 ∷ []

abbrev configurations : List ApplicationConfiguration
configurations = sample_configuration (sample_item [] (codes "web-v1") ∷ []) [] ∷ []

abbrev web : Component
web = sample_component (codes "web")

abbrev cluster : Cluster
cluster = record {
  get_revision = λ n. none;
  list_revisions = λ n. some revisions;
  list_app_configs = some configurations;
  create_ok = λ r. true;
  update_status_ok = λ c. true;
  delete_ok = λ r. true;
  unmarshal = λ b. none;
}

abbrev sorter : Sorter revision_key
sorter = insertion_sorter revision_key

extract_component_name-construct_revision_name_example :
    extract_component_name (construct_revision_name (codes "my-web") 12) ≡ codes "my-web"
extract_component_name-construct_revision_name_example =
    extract_component_name-construct_revision_name (codes "my-web") 12 (omega arith)

cleanup_controller_revision_safe_example :
    (names : List GoString) × Distinct names
    × ((k : GoString) → Mem k names ↔ Pins configurations k)
    × All (DeletesUnpinned configurations) (cleanup_controller_revision sorter 1 cluster web).0
    × (length (cleanup_controller_revision sorter 1 cluster web).0
        ≤ length revisions - (1 + length names))
cleanup_controller_revision_safe_example =
    cleanup_controller_revision_safe sorter 1 cluster web revisions configurations refl refl

cleanup_controller_revision_oldest_example :
    (cleanup_controller_revision sorter 1 cluster web ≡ (
      map delete (
          take
            (length revisions - (1 + length (live_hashes [] configurations)))
            (keep (is_dead (live_hashes [] configurations)) (sorter.sort revisions))),
      true,
    ))
    × IsBefore
        (take
          (length revisions - (1 + length (live_hashes [] configurations)))
          (keep (is_dead (live_hashes [] configurations)) (sorter.sort revisions)))
        (drop
          (length revisions - (1 + length (live_hashes [] configurations)))
          (keep (is_dead (live_hashes [] configurations)) (sorter.sort revisions)))
cleanup_controller_revision_oldest_example =
    cleanup_controller_revision_oldest sorter 1 cluster web revisions configurations refl refl
      (λ r. refl)

-- What the first run publishes: the component with its status, and its revision.
abbrev web' : Component
web' = record web {
  status = record {
    observed_generation = web.metadata.generation;
    latest_revision =
        some (record { name = construct_revision_name (codes "web") 1; revision = 1 });
  };
}

abbrev first_revision : ControllerRevision
first_revision = record {
  name = construct_revision_name (codes "web") 1;
  namespace = web.metadata.namespace;
  owner_uid = web.metadata.uid;
  component_label = web.metadata.name;
  revision = 1;
  revision_data = component web';
}

-- The calls of the first run after the creation and the status update.
abbrev later : List Call
later = []

first_run :
    (create_controller_revision sorter 1 cluster (sample_meta (codes "web")) web).1
    ≡ create first_revision ∷ update_status web' ∷ later
unfolding create_controller_revision is_revision_diff with_latest new_revision
first_run = refl

-- Afterwards the API server returns the revision as raw JSON.
abbrev cluster_after : Cluster
cluster_after = record cluster {
  get_revision = λ n. some (record first_revision { revision_data = raw (codes "{}") });
  unmarshal = λ b. some web';
}

stored : IsStored cluster_after (sample_meta (codes "web")) first_revision web'
stored = (
  record first_revision { revision_data = raw (codes "{}") },
  codes "{}",
  refl,
  refl,
  refl,
  refl,
  refl,
)

create_controller_revision_stable_example :
    Reacts sorter 1 cluster_after
      (sample_meta (codes "web"))
      (record web' { spec = web.spec })
      first_revision
      web.spec
create_controller_revision_stable_example =
    create_controller_revision_stable sorter 1 cluster cluster_after (sample_meta (codes "web")) web
      web' web' first_revision later web.spec first_run stored refl

requested :
    Mem
      (update_status web')
      (create_controller_revision sorter 1 cluster (sample_meta (codes "web")) web).1
unfolding create_controller_revision is_revision_diff with_latest
requested = inr (inl refl)

create_controller_revision_order_example :
    (rev : ControllerRevision) × (rest : List Call) × ((create_controller_revision sorter 1 cluster
        (sample_meta (codes "web"))
        web).1
      ≡ create rev ∷ update_status web' ∷ rest)
    × ((d : Component) → ¬ Mem (update_status d) rest)
    × (cluster.create_ok rev ≡ true)
    × IsRevisionOf (sample_meta (codes "web")) web rev web'
    × Follows cluster (sample_meta (codes "web")) web rev.revision
create_controller_revision_order_example =
    create_controller_revision_order sorter 1 cluster (sample_meta (codes "web")) web web' requested
