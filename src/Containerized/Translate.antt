-- ===== src/Containerized/Translate.antt =====
-- translate.go: the Deployment and the ConfigMaps of a ContainerizedWorkload, and the Service of a
-- Deployment.
pub mod Paths
pub mod Parts
pub mod Objects
pub mod Files
