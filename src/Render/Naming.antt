-- ===== src/Render/Naming.antt =====
-- render.go, SetWorkloadInstanceName, getExistingWorkload, getTraitName and setTraitProperties: the
-- names of the objects that are rendered.
pub mod Recorded
pub mod Instance
pub mod Kept
use oam_kubernetes_runtime.Base.{
  GoString, codes, ◌==◌, is_empty, contains, split, Bool, true, false, not, ◌&&◌, Option, none,
  some, List, [], ◌∷◌, any, if◌then◌else◌, Result, ok, err,
}
use oam_kubernetes_runtime.Api.{
  Component, ComponentTrait, TraitDefinition, WorkloadTrait, WorkloadStatus,
  ApplicationConfiguration, Revision,
}
use oam_kubernetes_runtime.Api.Value.{Value, str, object, end, Unstructured}
use oam_kubernetes_runtime.Api.Fieldpath.{Got, found, missing, failed, Fieldpath, Reader}
use oam_kubernetes_runtime.Util.{index, label_app_component_revision, gen_trait_name}

pub data NameError : Type 0 where
  comp_revision set_value_for_field get_workload : NameError

-- isRevisionEnabled
unfoldable pub is_revision_enabled : List TraitDefinition → Bool
is_revision_enabled [] = false
is_revision_enabled (td ∷ tds) = if td.revision_enabled then true else is_revision_enabled tds

-- instanceNamePath
abbrev pub instance_name_path : GoString
instance_name_path = codes "metadata.name"

set_name : Fieldpath → Unstructured → GoString → Result NameError Unstructured
set_name fp w name = elim (fp.set_value w instance_name_path (str name)) [
  | ok w' ↦ ok w'
  | err _ ↦ err set_value_for_field
]

-- The existing workload has the label of that revision.
has_revision : Option Unstructured → GoString → Bool
has_revision none revision = false
has_revision (some u) revision = index u.labels label_app_component_revision == revision

abbrev pub name_of : Option Unstructured → GoString
name_of none = []
name_of (some u) = u.name

unfoldable pub set_workload_instance_name :
    Fieldpath
    → List TraitDefinition
    → Unstructured
    → Component
    → Option Unstructured
    → Result NameError Unstructured
unfolding set_name has_revision
set_workload_instance_name fp trait_defs w c existing =
    if not (is_empty w.name)
    then ok w
    else if is_revision_enabled trait_defs
    then elim c.status.latest_revision [
      | none ↦ err comp_revision
      | some latest ↦
          if has_revision existing latest.name
          then set_name fp w (name_of existing)
          else set_name fp w latest.name
    ]
    else set_name fp w c.metadata.name

workload_name : GoString → List WorkloadStatus → GoString → GoString
workload_name name [] component = name
workload_name name (st ∷ sts) component =
    workload_name (if st.component_name == component then st.reference.name else name) sts component

-- getExistingWorkload: an empty object if no name is known, nothing if the workload is not found.
unfoldable pub get_existing_workload :
    Reader
    → ApplicationConfiguration
    → Component
    → Unstructured
    → Result NameError (Option Unstructured)
unfolding workload_name
get_existing_workload client ac c w =
    let name = workload_name [] ac.status.workloads c.metadata.name in
    if is_empty name
    then ok (
        some (record {
          api_version = [];
          kind = [];
          name = [];
          namespace = [];
          uid = [];
          labels = none;
          annotations = none;
          content = object end;
        }))
    else elim (client.get w.api_version w.kind ac.metadata.namespace name) [
      | found u ↦ ok (some u)
      | missing ↦ ok none
      | failed _ ↦ err get_workload
    ]

recorded_of : GoString → List WorkloadTrait → GoString → GoString → GoString
recorded_of name [] api_version kind = name
recorded_of name (t ∷ ts) api_version kind =
    recorded_of
      (if t.reference.api_version == api_version && t.reference.kind == kind
        then t.reference.name
        else name)
      ts api_version kind

-- The name of the last trait of that type that the statuses of the component have.
unfoldable pub recorded_name :
    GoString → List WorkloadStatus → GoString → GoString → GoString → GoString
unfolding recorded_of
recorded_name name [] component api_version kind = name
recorded_name name (st ∷ sts) component api_version kind =
    recorded_name
      (if st.component_name == component then recorded_of name st.traits api_version kind else name)
      sts component api_version kind

before_dot : GoString → GoString
before_dot s = if contains s (codes ".") then first (split b'.' s) else s
  where
    first : List GoString → GoString
    first [] = []
    first (x ∷ xs) = x

unfoldable pub get_trait_name :
    (ComponentTrait → GoString)
    → ApplicationConfiguration
    → GoString
    → ComponentTrait
    → Unstructured
    → TraitDefinition
    → GoString
unfolding before_dot
get_trait_name compute_hash ac component ct t def =
    let recorded = recorded_name [] ac.status.workloads component t.api_version t.kind in
    if not (is_empty t.name)
    then t.name
    else if is_empty recorded
    then gen_trait_name compute_hash component ct (before_dot def.name)
    else recorded

-- setTraitProperties; SetOwnerReferences is a parameter.
unfoldable pub set_trait_properties :
    (Unstructured → Unstructured) → Unstructured → GoString → GoString → Unstructured
set_trait_properties set_owner t trait_name namespace =
    let named = if is_empty t.name then record t { name = trait_name } else t in
    record (set_owner named) { namespace = namespace }
