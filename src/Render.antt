-- ===== src/Render.antt =====
-- pkg/controller/v1alpha2/applicationconfiguration/render.go: from an application configuration to
-- workloads and traits.
pub mod Params
pub mod Conditions
pub mod Dependency
pub mod Naming
pub mod Components
pub mod Tests
