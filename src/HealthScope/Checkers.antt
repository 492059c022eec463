-- ===== src/HealthScope/Checkers.antt =====
-- healthscope.go and standard.go: the health checkers of the kinds of workloads.
pub mod Children
use oam_kubernetes_runtime.Base.{
  ℕ, GoString, codes, ◌==◌, is_empty, Bool, true, false, not, ◌&&◌, ◌||◌, Option, none, some, List,
  [], ◌∷◌, ◌++◌, Map, length, nat_eq, if◌then◌else◌, print_int64, Result, ok, err, ◌>>=◌, Sorter,
}
use oam_kubernetes_runtime.Api.{TypedReference}
use oam_kubernetes_runtime.Api.Value.{Unstructured}
use oam_kubernetes_runtime.Util.{index, label_app_component, label_app_name}
use oam_kubernetes_runtime.HealthScope.{
  WorkloadHealthCondition, Panic, nil_dereference, type_assertion, status_healthy, status_unhealthy,
  status_unknown,
}
use oam_kubernetes_runtime.HealthScope.Peers.{peer_key, merge_peer_workloads_conditions}
use oam_kubernetes_runtime.HealthScope.Objects.{
  DaemonSet, Parent, Child, entry, no_map, HealthClient, health_error, new_condition,
  get_component_name_from_label, get_app_config_name_from_label, is_kind, check_replicated,
  check_daemon_set,
}

-- A checker: nothing for a reference that is not of its kind.
abbrev pub Checker : Type 0
Checker = TypedReference → Result Panic (Option WorkloadHealthCondition)

unfoldable pub merge_sub_conditions :
    List (Option WorkloadHealthCondition)
    → WorkloadHealthCondition
    → Result Panic WorkloadHealthCondition
merge_sub_conditions [] r = ok r
merge_sub_conditions (none ∷ scs) r = err nil_dereference
merge_sub_conditions (some sc ∷ scs) r = merge_sub_conditions scs (record r {
  health_status =
      if not (sc.health_status == status_healthy) then status_unhealthy else r.health_status;
  diagnosis = r.diagnosis ++ sc.diagnosis;
})

-- The references, and the condition after the errors of their decoding. The type assertion on a
-- value that is no map panics.
child_references :
    List Child
    → WorkloadHealthCondition
    → Result Panic (List TypedReference × WorkloadHealthCondition)
unfolding health_error
child_references [] r = ok ([], r)
child_references (no_map ∷ rest) r = err type_assertion
child_references (entry ref none ∷ rest) r =
    child_references rest r >>= λ (refs, r'). ok (ref ∷ refs, r')
child_references (entry ref (some e) ∷ rest) r =
    child_references rest
      (record r { health_status = status_unhealthy; diagnosis = health_error e })
    >>= λ (refs, r'). ok (ref ∷ refs, r')

some_condition :
    Result Panic WorkloadHealthCondition → Result Panic (Option WorkloadHealthCondition)
some_condition (ok r) = ok (some r)
some_condition (err p) = err p

peers_of : GoString → List Unstructured → List TypedReference
peers_of name [] = []
peers_of name (u ∷ us) =
    let rest = peers_of name us in
    if u.name == name
    then rest
    else record { api_version = u.api_version; kind = u.kind; name = u.name; uid = [] } ∷ rest

collect : Checker → List TypedReference → Result Panic (List WorkloadHealthCondition)
collect fn [] = ok []
collect fn (ref ∷ refs) =
    fn ref >>= λ hc. collect fn refs >>= λ hcs. ok (elim hc [ none ↦ hcs | some c ↦ c ∷ hcs ])

module _ (cl : HealthClient) (namespace : GoString) where
  unfoldable pub check_deployment_health : TypedReference → Option WorkloadHealthCondition
  unfolding is_kind check_replicated
  check_deployment_health ref =
      if is_kind (codes "apps/v1") (codes "Deployment") ref
      then some (check_replicated ref (cl.get_deployment namespace ref.name))
      else none

  unfoldable pub check_statefulset_health : TypedReference → Option WorkloadHealthCondition
  unfolding is_kind check_replicated
  check_statefulset_health ref =
      if is_kind (codes "apps/v1") (codes "StatefulSet") ref
      then some (check_replicated ref (cl.get_stateful_set namespace ref.name))
      else none

  unfoldable pub check_daemonset_health : TypedReference → Option WorkloadHealthCondition
  unfolding is_kind check_daemon_set
  check_daemonset_health ref =
      if is_kind (codes "apps/v1") (codes "DaemonSet") ref
      then some (check_daemon_set ref (cl.get_daemon_set namespace ref.name))
      else none

  service_condition : TypedReference → WorkloadHealthCondition
  unfolding new_condition health_error
  service_condition ref = elim (cl.get ref.api_version ref.kind namespace ref.name) [
    | ok _ ↦ new_condition status_healthy ref
    | err e ↦ record (new_condition status_unhealthy ref) { diagnosis = health_error e }
  ]

  -- The conditions of the children; one that is nil is kept, and read later.
  unfoldable pub sub_conditions : List TypedReference → List (Option WorkloadHealthCondition)
  unfolding service_condition
  sub_conditions [] = []
  sub_conditions (ref ∷ refs) =
      let rest = sub_conditions refs in
      if ref.kind == codes "Deployment"
      then check_deployment_health ref ∷ rest
      else if ref.kind == codes "Service"
      then some (service_condition ref) ∷ rest
      else rest

  unfoldable pub update_child_resources_condition :
      WorkloadHealthCondition
      → TypedReference
      → List TypedReference
      → Result Panic WorkloadHealthCondition
  update_child_resources_condition r ref child_refs =
      if not (nat_eq (length child_refs) 2)
      then ok (record r {
        diagnosis = codes "cannot get child resource references of workload " ++ ref.name;
        health_status = status_unhealthy;
      })
      else merge_sub_conditions (sub_conditions child_refs) r

  check_parent : TypedReference → Result GoString Parent → Result Panic WorkloadHealthCondition
  unfolding new_condition health_error get_component_name_from_label child_references
  check_parent ref (err e) =
      ok (record (new_condition status_unhealthy ref) { diagnosis = health_error e })
  check_parent ref (ok parent) =
      let r = record (new_condition status_healthy ref) {
        component_name = get_component_name_from_label parent.labels;
        target_workload = record ref { uid = parent.uid };
      } in
      child_references parent.resources r >>= λ (refs, r').
      update_child_resources_condition r' ref refs

  unfoldable pub check_containerized_workload_health : Checker
  unfolding is_kind check_parent some_condition
  check_containerized_workload_health ref =
      if is_kind (codes "core.oam.dev/v1alpha2") (codes "ContainerizedWorkload") ref
      then some_condition (check_parent ref (cl.get_containerized_workload namespace ref.name))
      else ok none

  unfoldable pub check_pod_spec_workload_health : Checker
  unfolding is_kind check_parent some_condition
  check_pod_spec_workload_health ref =
      if is_kind (codes "standard.oam.dev/v1alpha1") (codes "PodSpecWorkload") ref
      then some_condition (check_parent ref (cl.get_pod_spec_workload namespace ref.name))
      else ok none

  unfoldable pub check_unknown_workload : TypedReference → WorkloadHealthCondition
  unfolding new_condition health_error get_component_name_from_label
  check_unknown_workload ref =
      let r = record (new_condition status_unknown ref) {
        diagnosis =
            codes "APIVersion "
            ++ (ref.api_version
                ++ (codes " Kind " ++ (ref.kind ++ codes " workload is unknown for HealthScope ")));
      } in
      elim (cl.get ref.api_version ref.kind namespace ref.name) [
        | err e ↦ record r { diagnosis = health_error e }
        | ok wl ↦ elim (cl.marshal_status wl) [
          | err e ↦ record r {
            component_name = get_component_name_from_label wl.labels;
            diagnosis = health_error e;
          }
          | ok text ↦ record r {
            component_name = get_component_name_from_label wl.labels;
            workload_status = text;
          }
        ]
      ]

  unfoldable pub get_versioning_peer_workload_refs :
      TypedReference → Result GoString (List TypedReference)
  unfolding get_component_name_from_label get_app_config_name_from_label peers_of
  get_versioning_peer_workload_refs ref =
      cl.get ref.api_version ref.kind namespace ref.name >>= λ o.
      let comp = get_component_name_from_label o.labels in
      let app = get_app_config_name_from_label o.labels in
      if is_empty comp || is_empty app
      then ok []
      else (cl.list ref.api_version ref.kind namespace comp app >>= λ us. ok (peers_of o.name us))

  -- WorkloadHealthCheckFn.Check
  unfoldable pub check : Sorter peer_key → Checker → Checker
  unfolding collect
  check sorter fn ref = fn ref >>= λ hc. elim hc [
    | none ↦ ok none
    | some r ↦ elim (get_versioning_peer_workload_refs ref) [
      | err e ↦ ok (
          some (record r {
            health_status = status_unhealthy;
            diagnosis =
                r.diagnosis
                ++ (codes " "
                    ++ (codes "error occurs when get versioning peer workloads refs"
                        ++ (codes ":" ++ e)));
          }))
      | ok peers ↦
          (collect fn peers >>= λ hcs. ok (some (merge_peer_workloads_conditions sorter hcs r)))
    ]
  ]
