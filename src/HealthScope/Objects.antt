-- ===== src/HealthScope/Objects.antt =====
-- healthscope.go: what the checkers read of the objects, and the conditions of single objects.
use oam_kubernetes_runtime.Base.{
  ℕ, GoString, codes, ◌==◌, Bool, ◌&&◌, Option, none, some, List, [], ◌++◌, Map, nat_eq,
  if◌then◌else◌, print_int64, Result, ok, err,
}
use oam_kubernetes_runtime.Api.{TypedReference}
use oam_kubernetes_runtime.Api.Value.{Unstructured}
use oam_kubernetes_runtime.Util.{index, label_app_component, label_app_name}
use oam_kubernetes_runtime.HealthScope.{WorkloadHealthCondition, status_healthy, status_unhealthy}

-- apps.Deployment and apps.StatefulSet, as far as they are read. An int32 is the 64-bit pattern of
-- its value.
pub record Replicated : Type 0 where
  pub labels : Option (Map GoString)
  pub uid : GoString
  pub replicas : Option ℕ
  pub ready_replicas : ℕ

pub record DaemonSet : Type 0 where
  pub labels : Option (Map GoString)
  pub uid : GoString
  pub number_ready : ℕ
  pub desired_number_scheduled : ℕ
  pub number_unavailable : ℕ

-- An entry of a list of children: decoded, with the error of its decoding if there is one, or, in
-- the untyped list of a PodSpecWorkload, a value that is no map.
pub data Child : Type 0 where
  entry : TypedReference → Option GoString → Child
  no_map : Child

-- A workload that lists its children.
pub record Parent : Type 0 where
  pub labels : Option (Map GoString)
  pub uid : GoString
  pub resources : List Child

-- The client's answers by namespace and name, with the text of an error; the list of a kind with the
-- labels of a component and an application; and the status of an object as JSON.
pub record HealthClient : Type 0 where
  pub get_deployment : GoString → GoString → Result GoString Replicated
  pub get_stateful_set : GoString → GoString → Result GoString Replicated
  pub get_daemon_set : GoString → GoString → Result GoString DaemonSet
  pub get_containerized_workload : GoString → GoString → Result GoString Parent
  pub get_pod_spec_workload : GoString → GoString → Result GoString Parent
  pub get : GoString → GoString → GoString → GoString → Result GoString Unstructured
  pub list :
      GoString → GoString → GoString → GoString → GoString → Result GoString (List Unstructured)
  pub marshal_status : Unstructured → Result GoString GoString

-- errors.Wrap(err, errHealthCheck).Error()
unfoldable pub health_error : GoString → GoString
health_error text = codes "error occurs in health check : " ++ text

unfoldable pub new_condition : GoString → TypedReference → WorkloadHealthCondition
new_condition status ref = record {
  component_name = [];
  target_workload = ref;
  health_status = status;
  diagnosis = [];
  workload_status = [];
}

-- getComponentNameFromLabel, on an object that is not nil
unfoldable pub get_component_name_from_label : Option (Map GoString) → GoString
get_component_name_from_label labels = index labels label_app_component

unfoldable pub get_app_config_name_from_label : Option (Map GoString) → GoString
get_app_config_name_from_label labels = index labels label_app_name

unfoldable pub is_kind : GoString → GoString → TypedReference → Bool
is_kind api_version kind ref = ref.api_version == api_version && ref.kind == kind

abbrev ready_text : ℕ → ℕ → GoString
ready_text a b = codes "Ready:" ++ (print_int64 a ++ (codes "/" ++ (print_int64 b ++ codes " ")))

abbrev required_replicas : Option ℕ → ℕ
required_replicas none = 0
required_replicas (some n) = n

unfoldable pub check_replicated :
    TypedReference → Result GoString Replicated → WorkloadHealthCondition
unfolding health_error new_condition get_component_name_from_label
check_replicated ref (err e) = record (new_condition status_unhealthy ref) {
  diagnosis = health_error e;
}
check_replicated ref (ok d) = record {
  component_name = get_component_name_from_label d.labels;
  target_workload = record ref { uid = d.uid };
  health_status =
      if nat_eq d.ready_replicas (required_replicas d.replicas)
      then status_healthy
      else status_unhealthy;
  diagnosis = ready_text d.ready_replicas (required_replicas d.replicas);
  workload_status = [];
}

unfoldable pub check_daemon_set :
    TypedReference → Result GoString DaemonSet → WorkloadHealthCondition
unfolding health_error new_condition get_component_name_from_label
check_daemon_set ref (err e) = record (new_condition status_unhealthy ref) {
  diagnosis = health_error e;
}
check_daemon_set ref (ok d) = record {
  component_name = get_component_name_from_label d.labels;
  target_workload = record ref { uid = d.uid };
  health_status = if nat_eq d.number_unavailable 0 then status_healthy else status_unhealthy;
  diagnosis = ready_text d.number_ready d.desired_number_scheduled;
  workload_status = [];
}
