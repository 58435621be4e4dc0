-- ===== src/Config.antt =====
-- config/: the configuration of the host and its clusters, in memory and on disk.
pub mod Types
pub mod Constants
pub mod Memory
pub mod Cluster
pub mod Paths
pub mod Load
pub mod Secrets
