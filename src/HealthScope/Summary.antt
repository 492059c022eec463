-- ===== src/HealthScope/Summary.antt =====
-- healthscope_controller.go, GetScopeHealthStatus: the workloads are checked concurrently, and the
-- conditions counted as they arrive.
pub mod Order
pub mod Arrival
use oam_kubernetes_runtime.Base.{
  ℕ, zero, suc, ◌+◌, GoString, ◌==◌, Bool, true, false, ◌||◌, Option, none, some, List, [], ◌∷◌,
  ◌++◌, length, if◌then◌else◌, ltb, Result, ok, err, ◌>>=◌, ◌≡◌, Sorter,
}
use oam_kubernetes_runtime.Api.{TypedReference}
use oam_kubernetes_runtime.HealthScope.{
  WorkloadHealthCondition, ScopeHealthCondition, Panic, status_healthy, status_unhealthy,
}
use oam_kubernetes_runtime.HealthScope.Peers.{peer_key}
use oam_kubernetes_runtime.HealthScope.Checkers.{
  Checker, check, check_pod_spec_workload_health, check_containerized_workload_health,
  check_deployment_health, check_statefulset_health, check_daemonset_health, check_unknown_workload,
}
use oam_kubernetes_runtime.HealthScope.Objects.{HealthClient}

-- The first condition that one of the checkers has.
first_of :
    List Checker
    → (TypedReference → Result Panic WorkloadHealthCondition)
    → TypedReference
    → Result Panic WorkloadHealthCondition
first_of [] unknown ref = unknown ref
first_of (c ∷ cs) unknown ref =
    let rest = first_of cs unknown ref in c ref >>= λ hc. elim hc [ none ↦ rest | some r ↦ ok r ]

-- The result of a check of an unknown workload; that checker always has one.
or_panic : Option WorkloadHealthCondition → Result Panic WorkloadHealthCondition
or_panic none = err Panic.nil_dereference
or_panic (some r) = ok r

-- What a goroutine of GetScopeHealthStatus sends for a workload. The checker of the
-- HealthCheckTrait, which comes first, has no condition.
unfoldable pub workload_condition :
    Sorter peer_key
    → HealthClient
    → GoString
    → TypedReference
    → Result Panic WorkloadHealthCondition
unfolding first_of or_panic
workload_condition sorter cl ns =
    first_of
      (check cl ns sorter (check_pod_spec_workload_health cl ns)
        ∷ check cl ns sorter (check_containerized_workload_health cl ns)
        ∷ check cl ns sorter (λ ref. ok (check_deployment_health cl ns ref))
        ∷ check cl ns sorter (λ ref. ok (check_statefulset_health cl ns ref))
        ∷ check cl ns sorter (λ ref. ok (check_daemonset_health cl ns ref))
        ∷ [])
      (λ ref.
        check cl ns sorter (λ ref'. ok (some (check_unknown_workload cl ns ref'))) ref >>= or_panic)

-- The workloads whose goroutines have not sent yet, and what was received.
pub record State : Type 0 where
  pub pending : List TypedReference
  pub received : List WorkloadHealthCondition

-- One goroutine, any of them, sends its condition.
pub data Step (condition : TypedReference → Result Panic WorkloadHealthCondition)
    : State → State → Type 0 where
  send :
      (before after : List TypedReference) (ref : TypedReference)
      (received : List WorkloadHealthCondition) (hc : WorkloadHealthCondition)
      → condition ref ≡ ok hc
      → Step condition
          (record { pending = before ++ ref ∷ after; received = received })
          (record { pending = before ++ after; received = received ++ hc ∷ [] })

pub data Steps (condition : TypedReference → Result Panic WorkloadHealthCondition)
    : State → State → Type 0 where
  none_left : (s : State) → Steps condition s s
  step : {s t u : State} → Step condition s t → Steps condition t u → Steps condition s u

pub record Counts : Type 0 where
  pub healthy : ℕ
  pub unhealthy : ℕ
  pub unknown : ℕ

unfoldable pub tick : Counts → WorkloadHealthCondition → Counts
tick n hc =
    if hc.health_status == status_healthy
    then record n { healthy = suc n.healthy }
    else if hc.health_status == status_unhealthy
    then record n { unhealthy = suc n.unhealthy }
    else record n { unknown = suc n.unknown }

-- The loop over the channel.
unfoldable pub count : Counts → List WorkloadHealthCondition → Counts
count n [] = n
count n (hc ∷ hcs) = count (tick n hc) hcs

-- The condition of a scope with workloads, from what was received.
unfoldable pub scope_condition :
    List TypedReference → List WorkloadHealthCondition → ScopeHealthCondition
scope_condition refs received =
    let n = count (record { healthy = 0; unhealthy = 0; unknown = 0 }) received in
    record {
      health_status =
          if ltb 0 n.unhealthy || ltb 0 n.unknown then status_unhealthy else status_healthy;
      total = length refs;
      healthy_workloads = n.healthy;
      unhealthy_workloads = n.unhealthy;
      unknown_workloads = n.unknown;
    }
