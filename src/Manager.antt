-- ===== src/Manager.antt =====
-- app/: the manager of the clusters' lifecycle, its validation and its diagnostics.
pub mod Validate
pub mod Pipeline
pub mod Lifecycle
pub mod NatReset
pub mod Converge
pub mod Status
