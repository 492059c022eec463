-- ===== src/HealthScope.antt =====
-- pkg/controller/v1alpha2/core/scopes/healthscope and apis/core/v1alpha2/core_scope_types.go: the
-- health of the workloads in a scope.
pub mod Peers
pub mod Objects
pub mod Checkers
pub mod Summary
pub mod Controller
pub mod Tests
use oam_kubernetes_runtime.Base.{ℕ, GoString, codes, Option, List}
use oam_kubernetes_runtime.Api.{TypedReference}

-- HealthStatus is a string.
abbrev pub status_healthy : GoString
status_healthy = codes "HEALTHY"

abbrev pub status_unhealthy : GoString
status_unhealthy = codes "UNHEALTHY"

abbrev pub status_unknown : GoString
status_unknown = codes "UNKNOWN"

pub record WorkloadHealthCondition : Type 0 where
  pub component_name : GoString
  pub target_workload : TypedReference
  pub health_status : GoString
  pub diagnosis : GoString
  pub workload_status : GoString

pub record ScopeHealthCondition : Type 0 where
  pub health_status : GoString
  pub total : ℕ
  pub healthy_workloads : ℕ
  pub unhealthy_workloads : ℕ
  pub unknown_workloads : ℕ

-- A run-time panic of the goroutine.
pub data Panic : Type 0 where
  nil_dereference type_assertion : Panic
