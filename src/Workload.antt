-- ===== src/Workload.antt =====
-- pkg/controller/v1alpha2/applicationconfiguration/applicationconfiguration.go: the workloads and
-- traits that rendering produces, and their status.
use oam_kubernetes_runtime.Base.{
  GoString, codes, ◌==◌, Bool, ◌&&◌, List, [], map, Map, if◌then◌else◌,
}
use oam_kubernetes_runtime.Api.{
  TypedReference, TraitDefinition, DataInput, DataOutput, WorkloadTrait, WorkloadScope,
  WorkloadStatus,
}
use oam_kubernetes_runtime.Api.Value.{Unstructured}

pub record Trait : Type 0 where
  pub object : Unstructured
  pub has_dep : Bool
  pub definition : TraitDefinition
  pub data_outputs : Map DataOutput
  pub data_inputs : List DataInput

pub record Workload : Type 0 where
  pub component_name : GoString
  pub component_revision_name : GoString
  pub workload : Unstructured
  pub has_dep : Bool
  pub traits : List Trait
  pub revision_enabled : Bool
  pub scopes : List Unstructured
  pub data_outputs : Map DataOutput
  pub data_inputs : List DataInput

-- The reference to an object, without its UID.
abbrev pub reference_to : Unstructured → TypedReference
reference_to u = record { api_version = u.api_version; kind = u.kind; name = u.name; uid = [] }

-- util.Dummy and util.DummyTraitMessage
abbrev pub dummy : GoString
dummy = codes "dummy"

abbrev pub dummy_trait_message : GoString
dummy_trait_message =
    codes
      "No valid TraitDefinition found, all framework capabilities will work as default or disabled"

unfoldable pub trait_status : Trait → WorkloadTrait
trait_status tr = record {
  status = [];
  reference = reference_to tr.object;
  message =
      if tr.definition.name == dummy && tr.definition.reference.name == dummy
      then dummy_trait_message
      else [];
}

unfoldable pub scope_status : Unstructured → WorkloadScope
scope_status s = record { status = []; reference = reference_to s }

-- Workload.Status
unfoldable pub status : Workload → WorkloadStatus
unfolding trait_status scope_status
status w = record {
  status = [];
  component_name = w.component_name;
  component_revision_name = w.component_revision_name;
  reference = reference_to w.workload;
  traits = map trait_status w.traits;
  scopes = map scope_status w.scopes;
}
