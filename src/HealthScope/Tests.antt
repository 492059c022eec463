-- ===== src/HealthScope/Tests.antt =====
-- healthscope: the theorems at concrete conditions and arrivals.
use oam_kubernetes_runtime.Base.{
  ℕ, true, ltb, IsOk, arith, ◌+◌, GoString, codes, ◌==◌, not, ◌&&◌, some, none, List, [], ◌∷◌, any,
  All, length, nat_eq, ◌≡◌, ◌≢◌, ◌↔◌, refl, Result, ok, err, is_ok, Sorter, insertion_sorter,
  print_int64,
}
use oam_kubernetes_runtime.Api.{TypedReference}
use oam_kubernetes_runtime.Samples.{sample_reference}
use oam_kubernetes_runtime.HealthScope.{
  WorkloadHealthCondition, Panic, status_healthy, status_unhealthy,
}
use oam_kubernetes_runtime.HealthScope.Peers.{peer_key, merge_peer_workloads_conditions}
use oam_kubernetes_runtime.HealthScope.Peers.Overall.{
  NotUnhealthy, merge_peer_workloads_conditions-unhealthy,
}
use oam_kubernetes_runtime.HealthScope.Checkers.{
  sub_conditions, merge_sub_conditions, update_child_resources_condition, check_deployment_health,
}
use oam_kubernetes_runtime.HealthScope.Objects.{HealthClient}
use oam_kubernetes_runtime.HealthScope.Checkers.Children.{
  is_misplaced, update_child_resources_condition-is_ok,
}
use oam_kubernetes_runtime.Api.Fieldpath.{found}
use oam_kubernetes_runtime.HealthScope.Controller.{
  HealthScope, ScopeClient, is_positive, interval_of, observed, reconcile,
}
use oam_kubernetes_runtime.HealthScope.Controller.Probing.{reconcile-requeue_after}
use oam_kubernetes_runtime.HealthScope.Summary.{Steps, send, none_left, step, scope_condition}
use oam_kubernetes_runtime.HealthScope.Summary.Arrival.{IsHealthy, scope_condition-counts}
use oam_kubernetes_runtime.HealthScope.Summary.Order.{conditions, scope_condition-order}

abbrev condition : GoString → GoString → WorkloadHealthCondition
condition name status = record {
  component_name = codes "web";
  target_workload = sample_reference name;
  health_status = status;
  diagnosis = [];
  workload_status = [];
}

abbrev sorter : Sorter peer_key
sorter = insertion_sorter peer_key

abbrev peers : List WorkloadHealthCondition
peers = condition (codes "web-v1") status_unhealthy ∷ []

abbrev basic : WorkloadHealthCondition
basic = condition (codes "web-v2") status_healthy

merge_peer_workloads_conditions-unhealthy_example :
    (((merge_peer_workloads_conditions sorter peers basic).health_status ≢ status_unhealthy)
      ↔ All NotUnhealthy (basic ∷ peers))
    × (All NotUnhealthy (basic ∷ peers)
        → (merge_peer_workloads_conditions sorter peers basic).health_status ≡ basic.health_status)
merge_peer_workloads_conditions-unhealthy_example =
    merge_peer_workloads_conditions-unhealthy sorter peers basic

-- Deployments with one replica of one, and no other object.
abbrev client : HealthClient
client = record {
  get_deployment =
      λ ns n. ok (record { labels = none; uid = []; replicas = some 1; ready_replicas = 1 });
  get_stateful_set = λ ns n. err (codes "not found");
  get_daemon_set = λ ns n. err (codes "not found");
  get_containerized_workload = λ ns n. err (codes "not found");
  get_pod_spec_workload = λ ns n. err (codes "not found");
  get = λ v k ns n. err (codes "not found");
  list = λ v k ns c a. ok [];
  marshal_status = λ u. ok [];
}

abbrev children : List TypedReference
children =
    sample_reference (codes "web")
    ∷ record (sample_reference (codes "old")) { api_version = codes "extensions/v1beta1" }
    ∷ []

update_child_resources_condition-is_ok_example :
    is_ok (
      update_child_resources_condition client
        (codes "default")
        basic
        (sample_reference (codes "web"))
        children)
    ≡ not (nat_eq (length children) 2 && any is_misplaced children)
update_child_resources_condition-is_ok_example =
    update_child_resources_condition-is_ok client (codes "default") basic
      (sample_reference (codes "web")) children

abbrev deployments : List TypedReference
deployments = sample_reference (codes "web") ∷ sample_reference (codes "db") ∷ []

abbrev merged : WorkloadHealthCondition
merged = record basic { diagnosis = codes "Ready:1/1 Ready:1/1 " }

merges :
    update_child_resources_condition client
      (codes "default")
      basic
      (sample_reference (codes "web"))
      deployments
    ≡ ok merged
unfolding update_child_resources_condition sub_conditions merge_sub_conditions
    check_deployment_health ◌==◌ print_int64
merges = refl

abbrev check_one : TypedReference → Result Panic WorkloadHealthCondition
check_one ref = ok (condition ref.name ref.uid)

abbrev healthy_one : TypedReference
healthy_one = record (sample_reference (codes "a")) { uid = status_healthy }

abbrev unhealthy_one : TypedReference
unhealthy_one = record (sample_reference (codes "b")) { uid = status_unhealthy }

-- The second goroutine sends first.
run :
    Steps check_one
      (record { pending = healthy_one ∷ unhealthy_one ∷ []; received = [] })
      (record {
        pending = [];
        received =
            condition (codes "b") status_unhealthy ∷ condition (codes "a") status_healthy ∷ [];
      })
run =
    step (send (healthy_one ∷ []) [] unhealthy_one [] (condition (codes "b") status_unhealthy) refl)
      (step
        (send [] [] healthy_one (condition (codes "b") status_unhealthy ∷ [])
          (condition (codes "a") status_healthy) refl)
        (none_left _))

abbrev received : List WorkloadHealthCondition
received = condition (codes "b") status_unhealthy ∷ condition (codes "a") status_healthy ∷ []

scope_condition-order_example :
    (hcs : List WorkloadHealthCondition) × (conditions check_one (healthy_one ∷ unhealthy_one ∷ [])
      ≡ ok hcs)
    × (scope_condition (healthy_one ∷ unhealthy_one ∷ []) received
        ≡ scope_condition (healthy_one ∷ unhealthy_one ∷ []) hcs)
scope_condition-order_example =
    scope_condition-order check_one (healthy_one ∷ unhealthy_one ∷ []) received run

scope_condition-counts_example :
    ((scope_condition (healthy_one ∷ unhealthy_one ∷ []) received).healthy_workloads
        + ((scope_condition (healthy_one ∷ unhealthy_one ∷ []) received).unhealthy_workloads
            + (scope_condition (healthy_one ∷ unhealthy_one ∷ []) received).unknown_workloads)
      ≡ (scope_condition (healthy_one ∷ unhealthy_one ∷ []) received).total)
    × (((scope_condition (healthy_one ∷ unhealthy_one ∷ []) received).health_status
          ≡ status_healthy)
        ↔ All IsHealthy received)
scope_condition-counts_example =
    scope_condition-counts check_one (healthy_one ∷ unhealthy_one ∷ []) received run

-- A scope that is to be checked each second.
abbrev scope : HealthScope
scope = record {
  name = codes "scope";
  namespace = codes "default";
  probe_interval = some 1;
  workload_references = healthy_one ∷ unhealthy_one ∷ [];
  scope_health_condition = scope_condition [] [];
  workload_health_conditions = [];
}

-- The state of the cluster is the number of updates.
abbrev scopes : ScopeClient ℕ
scopes = record { get = λ ns n w. found scope; update_status = λ hs w. ok (w + 1) }

-- The check takes two seconds.
reconcile-requeue_after_example :
    let o = reconcile scopes (codes "default") (codes "scope") received 2000000000 0 in
    (is_positive o.requeue_after ≡ ltb 2000000000 (interval_of (some 1)))
    × (is_positive (interval_of (some 1)) ≡ true)
    × ((o.failure ≡ none) ↔ IsOk (scopes.update_status (observed scope received) 0))
reconcile-requeue_after_example =
    reconcile-requeue_after scopes (codes "default") (codes "scope") received 2000000000 0 scope
      refl (omega arith)
