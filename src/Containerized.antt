-- ===== src/Containerized.antt =====
-- apis/core/v1alpha2/core_workload_types.go and
-- pkg/controller/v1alpha2/core/workloads/containerizedworkload: a workload of containers and its
-- controller.
pub mod Types
pub mod Kube
pub mod Translate
pub mod Render
pub mod Selection
pub mod Sources
pub mod Controller
pub mod Cleanup
pub mod Recreated
pub mod Tests
