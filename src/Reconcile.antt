-- ===== src/Reconcile.antt =====
-- pkg/controller/v1alpha2/applicationconfiguration/applicationconfiguration.go: the parts of a
-- reconciliation of an ApplicationConfiguration.
pub mod Gc
pub mod Status
pub mod Once
pub mod Finalizers
pub mod Controller
pub mod Tests
