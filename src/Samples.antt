-- ===== src/Samples.antt =====
-- Objects that the tests share: metadata, references, workloads and application configurations.
use oam_kubernetes_runtime.Base.{GoString, codes, Bool, false, none, List, []}
use oam_kubernetes_runtime.Api.{
  ObjectMeta, TypedReference, Component, ApplicationConfiguration,
  ApplicationConfigurationComponent, WorkloadStatus, WorkloadTrait, WorkloadScope, TraitDefinition,
  WorkloadDefinition,
}
use oam_kubernetes_runtime.Api.Value.{Unstructured, object, end}
use oam_kubernetes_runtime.Workload.{Workload, Trait}

abbrev pub sample_meta : GoString → ObjectMeta
sample_meta name = record {
  name = name;
  namespace = codes "default";
  uid = [];
  generation = 1;
  deleting = false;
  finalizers = [];
  labels = none;
  annotations = none;
}

abbrev pub sample_reference : GoString → TypedReference
sample_reference name = record {
  api_version = codes "apps/v1";
  kind = codes "Deployment";
  name = name;
  uid = [];
}

abbrev pub sample_object : GoString → Unstructured
sample_object name = record {
  api_version = codes "apps/v1";
  kind = codes "Deployment";
  name = name;
  namespace = codes "default";
  uid = [];
  labels = none;
  annotations = none;
  content = object end;
}

abbrev pub sample_component : GoString → Component
sample_component name = record {
  metadata = sample_meta name;
  spec = record { workload = codes "{}"; parameters = [] };
  status = record { observed_generation = 0; latest_revision = none };
}

abbrev pub sample_item : GoString → GoString → ApplicationConfigurationComponent
sample_item component revision = record {
  component_name = component;
  revision_name = revision;
  data_outputs = [];
  data_inputs = [];
  parameter_values = [];
  traits = [];
  scopes = [];
}

abbrev pub sample_configuration :
    List ApplicationConfigurationComponent → List WorkloadStatus → ApplicationConfiguration
sample_configuration items statuses = record {
  metadata = sample_meta (codes "app");
  components = items;
  status = record {
    synced = none;
    dependency = [];
    workloads = statuses;
    observed_generation = 0;
    history_workloads = [];
  };
}

abbrev pub sample_status : GoString → List WorkloadTrait → List WorkloadScope → WorkloadStatus
sample_status name traits scopes = record {
  status = codes "running";
  component_name = codes "web";
  component_revision_name = name;
  reference = sample_reference name;
  traits = traits;
  scopes = scopes;
}

abbrev pub sample_workload : GoString → List Trait → List Unstructured → Workload
sample_workload name traits scopes = record {
  component_name = codes "web";
  component_revision_name = name;
  workload = sample_object name;
  has_dep = false;
  traits = traits;
  revision_enabled = false;
  scopes = scopes;
  data_outputs = [];
  data_inputs = [];
}

abbrev pub sample_trait_definition : Bool → List GoString → TraitDefinition
sample_trait_definition revision_enabled workloads = record {
  name = codes "scaler";
  reference = record { name = codes "scalers.oam.dev"; version = [] };
  revision_enabled = revision_enabled;
  workload_ref_path = [];
  applies_to_workloads = workloads;
}

abbrev pub sample_workload_definition : WorkloadDefinition
sample_workload_definition = record {
  name = codes "deployments.apps";
  reference = record { name = codes "deployments.apps"; version = [] };
  child_resource_kinds = [];
}
