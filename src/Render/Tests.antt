-- ===== src/Render/Tests.antt =====
-- render.go: the theorems on rendering at concrete parameters, sources and names.
use oam_kubernetes_runtime.Base.{
  GoString, codes, true, false, not, ◌&&◌, ◌||◌, none, some, List, [], ◌∷◌, ◌≡◌, ◌≢◌, ◌↔◌, ◌⊎◌,
  refl, all, All, Any, ok, err, is_ok, ok_inj, ap, sym, lookup, insert, has_key, ◌==◌,
}
use oam_kubernetes_runtime.Api.{
  ConditionRequirement, DataInput, ComponentParameter, ComponentParameterValue, str_val, Component,
  Revision, ApplicationConfigurationComponent, ComponentTrait, UnsatisfiedDependency,
  ApplicationConfiguration, WorkloadTrait,
}
use oam_kubernetes_runtime.Api.Value.{append, null, bool, number, str, slice, object, Unstructured}
use oam_kubernetes_runtime.Api.Fieldpath.{found, Fieldpath, Reader}
use oam_kubernetes_runtime.Samples.{
  sample_object, sample_reference, sample_item, sample_workload, sample_component,
  sample_trait_definition, sample_configuration, sample_status,
}
use oam_kubernetes_runtime.Workload.{Workload}
use oam_kubernetes_runtime.Render.Params.{
  Parameter, is_required, supported, set_values, set_paths, values, resolve,
}
use oam_kubernetes_runtime.Render.Params.Resolve.{
  find_parameter, parameter_of, last_value, is_declared, is_supplied, find_parameter-resolve,
  resolve-is_ok,
}
use oam_kubernetes_runtime.Render.Conditions.{
  DagSource, ready, get_data_input, check_conditions, condition_equal, read_source, match_raw,
  match_value, check_condition, get_check_val, get_expect_val, check_operator,
}
use oam_kubernetes_runtime.Render.Conditions.Ready.{Accepts, get_data_input-ready}
use oam_kubernetes_runtime.Render.Dependency.{
  Dag, handle_dependency, handle_data_input, check_input, is_blank, handle_data_output_conds,
  fill_value, check_operations, handle_data_input_conds, handle_data_output,
  handle_data_store_conds, is_no_store, trait_dependency, traits_dependency,
}
use oam_kubernetes_runtime.Render.Dependency.Waiting.{InputReady, handle_dependency-has_dep}
use oam_kubernetes_runtime.Render.Naming.{
  instance_name_path, is_revision_enabled, get_trait_name, set_workload_instance_name,
}
use oam_kubernetes_runtime.Render.Naming.Recorded.{IsRecorded}
use oam_kubernetes_runtime.Render.Naming.Instance.{
  Runs, set_workload_instance_name-name, get_trait_name_shared,
}

abbrev parameters : List ComponentParameter
parameters =
    record {
      name = codes "image";
      field_paths = codes "spec.image" ∷ [];
      required = some true;
      description = none;
    }
    ∷ record {
      name = codes "port";
      field_paths = codes "spec.port" ∷ [];
      required = none;
      description = none;
    }
    ∷ []

abbrev parameter_values : List ComponentParameterValue
parameter_values = record { name = codes "image"; value = str_val (codes "nginx") } ∷ []

abbrev resolved : List Parameter
resolved =
    record {
      name = codes "image";
      value = str_val (codes "nginx");
      field_paths = codes "spec.image" ∷ [];
    }
    ∷ []

resolves : resolve parameters parameter_values ≡ ok resolved
unfolding resolve set_values has_key lookup supported insert ◌==◌ set_paths is_required values
resolves = refl

resolve-is_ok_example : is_ok (resolve parameters parameter_values) ≡ (
    all (λ v. is_declared parameters v.name) parameter_values
    && all (λ p. not (is_required p) || is_supplied parameter_values p.name) parameters)
resolve-is_ok_example = resolve-is_ok parameters parameter_values

find_parameter-resolve_example :
    find_parameter (codes "image") resolved
    ≡ parameter_of (codes "image") parameters (last_value (codes "image") parameter_values)
find_parameter-resolve_example =
    find_parameter-resolve parameters parameter_values resolved resolves (codes "image")

-- A fieldpath package for which every field of an object is its name, and that sets its name only.
abbrev by_name : Fieldpath
by_name = record {
  get_value = λ u p. found (str u.name);
  get_string = λ u p. ok u.name;
  set_value = λ u p v. elim v [
    | null ↦ err []
    | bool _ ↦ err []
    | number _ ↦ err []
    | str s ↦ ok (record u { name = s })
    | slice _ ↦ err []
    | object _ ↦ err []
  ];
}

abbrev client : Reader
client = record { get = λ v k ns n. found (sample_object n) }

abbrev conditions : List ConditionRequirement
conditions =
    record {
      operator = condition_equal;
      value = codes "db";
      value_from = [];
      field_path = codes "status.name";
    }
    ∷ []

abbrev source : DagSource
source = record {
  object_ref = record {
    api_version = codes "apps/v1";
    kind = codes "Deployment";
    name = codes "db";
    namespace = codes "default";
    field_path = codes "status.ip";
  };
  conditions = conditions;
}

abbrev app : Unstructured
app = sample_object (codes "app")

get_data_input-ready_example :
    (get_data_input by_name client source app false ≡ ready (str (codes "db"))) ↔ (
      (u : Unstructured) × (client.get
          (codes "apps/v1")
          (codes "Deployment")
          (codes "default")
          (codes "db")
        ≡ found u)
      × (by_name.get_value u (codes "status.ip") ≡ found (str (codes "db")))
      × Accepts by_name u app conditions (str (codes "db")))
get_data_input-ready_example =
    get_data_input-ready by_name client source app (str (codes "db")) refl

abbrev input : DataInput
input = record {
  value_from = codes "db-ip";
  to_field_paths = codes "metadata.name" ∷ [];
  conditions = [];
  input_store = record {
    reference = record { api_version = []; kind = []; name = []; uid = [] };
    operations = [];
  };
}

abbrev item : ApplicationConfigurationComponent
item = record (sample_item (codes "web") []) { data_inputs = input ∷ [] }

abbrev dag : Dag
dag = (codes "db-ip", source) ∷ []

abbrev workload : Workload
workload = sample_workload (codes "web") [] []

abbrev handled : Workload
handled = record workload { workload = sample_object (codes "db"); data_inputs = input ∷ [] }

handles : handle_dependency by_name client app workload item dag ≡ ok ([], handled)
unfolding handle_dependency handle_data_input check_input is_blank all handle_data_output_conds
    lookup ◌==◌ get_data_input read_source match_raw match_value check_conditions check_condition
    get_check_val get_expect_val check_operator fill_value append insert check_operations
    handle_data_input_conds handle_data_output handle_data_store_conds is_no_store trait_dependency
    traits_dependency
handles = refl

handle_dependency-has_dep_example :
    (handled.has_dep ≡ true → ◌≢◌ {A = List UnsatisfiedDependency} [] [])
    × (handled.has_dep ≡ false
        → All (InputReady by_name client app dag) item.data_inputs
          × (handled.data_inputs ≡ item.data_inputs))
handle_dependency-has_dep_example =
    handle_dependency-has_dep by_name client app dag workload handled item [] refl handles

sets_name :
    (u u' : Unstructured) (n : GoString)
    → by_name.set_value u instance_name_path (str n) ≡ ok u'
    → u'.name ≡ n
sets_name u u' n h = ap (λ x. x.name) (sym (ok_inj h))

abbrev versioned : Component
versioned = record (sample_component (codes "web")) {
  status = record {
    observed_generation = 1;
    latest_revision = some (record { name = codes "web-v2"; revision = 2 });
  };
}

named :
    set_workload_instance_name by_name
      (sample_trait_definition true [] ∷ [])
      (sample_object [])
      versioned
      none
    ≡ ok (sample_object (codes "web-v2"))
unfolding set_workload_instance_name is_revision_enabled
named = refl

set_workload_instance_name-name_example :
    (All (λ d. d.revision_enabled ≡ false) (sample_trait_definition true [] ∷ [])
      × (codes "web-v2" ≡ codes "web"))
    ⊎ (Any (λ d. d.revision_enabled ≡ true) (sample_trait_definition true [] ∷ [])
        × (latest : Revision) × (versioned.status.latest_revision ≡ some latest)
        × (((u : Unstructured) × Runs none latest.name u × (codes "web-v2" ≡ u.name))
            ⊎ ((¬ ((u : Unstructured) × Runs none latest.name u))
                × (codes "web-v2" ≡ latest.name))))
set_workload_instance_name-name_example =
    set_workload_instance_name-name by_name sets_name (sample_trait_definition true [] ∷ [])
      (sample_object []) (sample_object (codes "web-v2")) versioned none named refl

abbrev trait_json : GoString → ComponentTrait
trait_json s = record { trait = s; data_outputs = []; data_inputs = [] }

abbrev recorded_scaler : WorkloadTrait
recorded_scaler = record {
  status = [];
  reference = sample_reference (codes "web-scaler-1");
  message = [];
}

abbrev recorded : ApplicationConfiguration
recorded = sample_configuration [] (sample_status (codes "web") (recorded_scaler ∷ []) [] ∷ [])

is_recorded :
    IsRecorded recorded (codes "web") (codes "apps/v1") (codes "Deployment") (codes "web-scaler-1")
is_recorded = record {
  before = [];
  after = [];
  at = sample_status (codes "web") (recorded_scaler ∷ []) [];
  earlier = [];
  later = [];
  entry = recorded_scaler;
  statuses = refl;
  traits = refl;
  named = refl;
  last_status = tt;
  last_entry = tt;
  version_is = refl;
  kind_is = refl;
  name_is = refl;
}

abbrev name_of_trait : GoString → GoString
name_of_trait raw =
    get_trait_name (λ ct. ct.trait) recorded (codes "web") (trait_json raw) (sample_object [])
      (sample_trait_definition false [])

get_trait_name_shared_example :
    (name_of_trait (codes "1") ≡ codes "web-scaler-1")
    × (name_of_trait (codes "2") ≡ codes "web-scaler-1")
get_trait_name_shared_example =
    get_trait_name_shared (λ ct. ct.trait) recorded (codes "web") (trait_json (codes "1"))
      (trait_json (codes "2")) (sample_object []) (sample_object [])
      (sample_trait_definition false []) (sample_trait_definition false []) (codes "web-scaler-1")
      refl refl refl refl (λ e. cc) is_recorded
