-- ===== src/Revision.antt =====
-- pkg/controller/v1alpha2/applicationconfiguration/component.go: the component handler, which
-- cuts a ControllerRevision whenever a Component's spec changes and cleans up old ones. A run of
-- the handler returns the calls that it makes; what the API server answers is a parameter.
pub mod Names
pub mod Live
pub mod Cleanup
pub mod Published
pub mod Stable
pub mod Queue
pub mod Tests
use Prim.Native.Nat.{max}
use oam_kubernetes_runtime.Base.{
  ℕ, zero, suc, ◌+◌, ◌-◌, ◌%◌, ◌^◌, GoString, codes, ◌==◌, split, join, drop_last, print_int64,
  word, signed_key, sign_bit, Bool, true, false, ◌&&◌, ◌||◌, not, Option, none, some, List, [], ◌∷◌,
  ◌++◌, length, Map, lookup, insert, has_key, if◌then◌else◌, ltb, leb, is_empty, is_yes, ℕ_discrete,
  Sorter,
}
use oam_kubernetes_runtime.Api.{
  ObjectMeta, NamespacedName, Revision, Component, ComponentSpec, ComponentStatus,
  ApplicationConfiguration, ApplicationConfigurationComponent,
}

-- <componentName>-v<RevisionNumber>
unfoldable pub construct_revision_name : GoString → ℕ → GoString
construct_revision_name component_name revision =
    join (codes "-") (component_name ∷ (codes "v" ++ print_int64 revision) ∷ [])

unfoldable pub extract_component_name : GoString → GoString
extract_component_name revision_name = join (codes "-") (drop_last (split b'-' revision_name))

-- runtime.RawExtension: a decoded object, of the right type or another, or raw JSON.
pub data RevisionData : Type 0 where
  component : Component → RevisionData
  other_object : RevisionData
  raw : GoString → RevisionData

pub record ControllerRevision : Type 0 where
  pub name : GoString
  pub namespace : GoString
  pub owner_uid : GoString
  pub component_label : GoString
  pub revision : ℕ
  pub revision_data : RevisionData

-- The calls of the handler that change the cluster.
pub data Call : Type 0 where
  create : ControllerRevision → Call
  update_status : Component → Call
  delete : ControllerRevision → Call

-- What the API server answers, and json.Unmarshal on a Component.
pub record Cluster : Type 0 where
  pub get_revision : NamespacedName → Option ControllerRevision
  pub list_revisions : GoString → Option (List ControllerRevision)
  pub list_app_configs : Option (List ApplicationConfiguration)
  pub create_ok : ControllerRevision → Bool
  pub update_status_ok : Component → Bool
  pub delete_ok : ControllerRevision → Bool
  pub unmarshal : GoString → Option Component

-- util.UnpackRevisionData
unfoldable pub unpack_revision_data : Cluster → ControllerRevision → Option Component
unpack_revision_data cl rev = elim rev.revision_data [
  | component c ↦ some c
  | other_object ↦ none
  | raw bytes ↦ cl.unmarshal bytes
]

pub ComponentSpec-discrete : Discrete ComponentSpec
ComponentSpec-discrete = hlevel ℕ_discrete

-- reflect.DeepEqual on specs
pub spec_eq : ComponentSpec → ComponentSpec → Bool
spec_eq s t = is_yes (ComponentSpec-discrete s t)

compare_old : Cluster → Component → ControllerRevision → Bool × ℕ
compare_old cl cur old_rev = elim (unpack_revision_data cl old_rev) [
  | none ↦ (true, old_rev.revision)
  | some old_comp ↦
      if spec_eq cur.spec old_comp.spec then (false, old_rev.revision) else (true, old_rev.revision)
]

-- IsRevisionDiff: whether the component differs from its latest revision, and that one's number.
unfoldable pub is_revision_diff : Cluster → ObjectMeta → Component → Bool × ℕ
unfolding compare_old
is_revision_diff cl mt cur = elim cur.status.latest_revision [
  | none ↦ (true, 0)
  | some latest ↦ elim (cl.get_revision (record { namespace = mt.namespace; name = latest.name })) [
    | none ↦ (true, latest.revision)
    | some old_rev ↦
        if is_empty old_rev.name then (true, latest.revision) else compare_old cl cur old_rev
  ]
]

live_of : Map Bool → List ApplicationConfigurationComponent → Map Bool
live_of live [] = live
live_of live (c ∷ cs) =
    live_of (if is_empty c.revision_name then live else insert c.revision_name true live) cs

-- The revision names that some application configuration pins.
unfoldable pub live_hashes : Map Bool → List ApplicationConfiguration → Map Bool
unfolding live_of
live_hashes live [] = live
live_hashes live (a ∷ rest) = live_hashes (live_of live a.components) rest

-- The order of historiesByRevision.
unfoldable pub revision_key : ControllerRevision → ℕ
revision_key r = signed_key r.revision

-- The loop of cleanupControllerRevision: the deletions made, and whether all were granted.
unfoldable pub cleanup_loop : Cluster → Map Bool → ℕ → List ControllerRevision → List Call × Bool
cleanup_loop cl live to_kill [] = ([], true)
cleanup_loop cl live zero (r ∷ rs) = ([], true)
cleanup_loop cl live (suc to_kill) (r ∷ rs) =
    let skipped = cleanup_loop cl live (suc to_kill) rs in
    let (calls, granted) = cleanup_loop cl live to_kill rs in
    if has_key r.name live
    then skipped
    else if cl.delete_ok r
    then (delete r ∷ calls, granted)
    else (delete r ∷ [], false)

-- The component with the status of its next revision.
unfoldable pub with_latest : Component → GoString → ℕ → Component
with_latest comp name next = record comp {
  status = record {
    observed_generation = comp.metadata.generation;
    latest_revision = some (record { name = name; revision = next });
  };
}

unfoldable pub new_revision : GoString → ℕ → Component → ControllerRevision
new_revision name next comp = record {
  name = name;
  namespace = comp.metadata.namespace;
  owner_uid = comp.metadata.uid;
  component_label = comp.metadata.name;
  revision = next;
  revision_data = component comp;
}

module _ (sorter : Sorter revision_key) (limit : ℕ) (cl : Cluster) where
  -- sortedControllerRevision: the revisions, sorted if any is to go, how many are to go, and the
  -- live names. A limit is not negative here; `-` stops at 0 where the code clamps.
  unfoldable pub sorted_controller_revision :
      List ApplicationConfiguration
      → List ControllerRevision
      → List ControllerRevision × ℕ × Map Bool
  sorted_controller_revision configs revisions =
      let live = live_hashes [] configs in
      let to_kill = length revisions - (limit + length live) in
      (if leb to_kill 0 then revisions else sorter.sort revisions, to_kill, live)

  unfoldable pub cleanup_controller_revision : Component → List Call × Bool
  unfolding sorted_controller_revision
  cleanup_controller_revision cur = elim (cl.list_revisions cur.metadata.name) [
    | none ↦ ([], false)
    | some revisions ↦ elim cl.list_app_configs [
      | none ↦ ([], false)
      | some configs ↦
          let (sorted, to_kill, live) = sorted_controller_revision configs revisions in
          cleanup_loop cl live to_kill sorted
    ]
  ]

  publish : GoString → ℕ → Component → Bool × List Call
  publish name next comp =
      let comp' = with_latest comp name next in
      let rev = new_revision name next comp' in
      if not (cl.create_ok rev)
      then (false, create rev ∷ [])
      else if not (cl.update_status_ok comp')
      then (false, create rev ∷ update_status comp' ∷ [])
      else (
        true,
        create rev
            ∷ update_status comp'
            ∷ (if ltb (signed_key limit) (signed_key next)
                then (cleanup_controller_revision comp').0
                else []),
      )

  -- createControllerRevision: whether a revision was made, and the calls.
  unfoldable pub create_controller_revision : ObjectMeta → Component → Bool × List Call
  unfolding publish
  create_controller_revision mt comp =
      let (diff, current) = is_revision_diff cl mt comp in
      let next = (current + 1) % word in
      if diff then publish (construct_revision_name mt.name next) next comp else (false, [])

-- isMatch: the first application configuration that names the component.
unfoldable pub names_component : GoString → List ApplicationConfigurationComponent → Bool
names_component name [] = false
names_component name (c ∷ cs) = c.component_name == name || names_component name cs

unfoldable pub is_match : List ApplicationConfiguration → GoString → Option NamespacedName
unfolding names_component
is_match [] name = none
is_match (a ∷ rest) name =
    if names_component name a.components
    then some (record { namespace = a.metadata.namespace; name = a.metadata.name })
    else is_match rest name

unfoldable pub get_related_app_config : Cluster → ObjectMeta → List NamespacedName
unfolding is_match
get_related_app_config cl mt = elim cl.list_app_configs [
  | none ↦ []
  | some configs ↦ elim (is_match configs mt.name) [ none ↦ [] | some n ↦ n ∷ [] ]
]

-- The events that the handler is called with; of an update, the new object counts.
pub data Event : Type 0 where
  created : ObjectMeta → Component → Event
  updated : ObjectMeta → Component → Event
  deleted : ObjectMeta → Event
  generic : Event

-- ComponentHandler.Create and Update: the calls, and the requests put on the queue.
unfoldable pub on_change :
    Sorter revision_key → ℕ → Cluster → ObjectMeta → Component → List Call × List NamespacedName
on_change sorter limit cl mt comp =
    let (made, calls) = create_controller_revision sorter limit cl mt comp in
    (calls, if made then get_related_app_config cl mt else [])

-- ComponentHandler.Create, Update, Delete and Generic
unfoldable pub on_event :
    Sorter revision_key → ℕ → Cluster → Event → List Call × List NamespacedName
on_event sorter limit cl (created mt comp) = on_change sorter limit cl mt comp
on_event sorter limit cl (updated mt comp) = on_change sorter limit cl mt comp
on_event sorter limit cl (deleted mt) = ([], get_related_app_config cl mt)
on_event sorter limit cl generic = ([], [])
