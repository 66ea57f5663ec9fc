-- ===== src/Forwarder.antt =====
-- internal/forwarder: bridging host ports to pod ports.
pub mod Registry
pub mod Tcp
pub mod Spdy
use docker_in_kubernetes.Prelude.{ℕ}

-- One pair of ports, each below 2 ^ 16.
pub record Mapping : Type 0 where
  pub host_port : ℕ
  pub container_port : ℕ
