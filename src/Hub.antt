-- ===== src/Hub.antt =====
-- ops/hubctl.py: the control plane that keeps the model catalog, the memory configuration and the
-- environment file of an installation.
pub mod Merge
pub mod Documents
pub mod Memory
pub mod Validation
pub mod Catalogs
pub mod Registration
pub mod Environment
pub mod Paths
pub mod Artifacts
pub mod Render
