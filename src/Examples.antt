-- ===== src/Examples.antt =====
-- The theorems at concrete inputs.
pub mod Names
pub mod Stores
pub mod Streams
pub mod Encoding
pub mod Cluster
pub mod Pods
pub mod Daemons
pub mod Following
pub mod Processes
pub mod Sessions
