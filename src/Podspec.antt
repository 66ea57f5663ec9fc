-- ===== src/Podspec.antt =====
-- internal/podspec: pod specs and IDs from Docker requests.
pub mod Name
pub mod Identity
pub mod Codec
pub mod Build
pub mod Ports
pub mod User
