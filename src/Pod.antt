-- ===== src/Pod.antt =====
-- The fields of Kubernetes' Pod that the program writes or reads (k8s.io/api/core/v1 is a library;
-- its names are kept). Instants are numbers, and 0 is the zero time.
use docker_in_kubernetes.Prelude.{ℕ, Bool, Option, none, some, List, [], Text, Dict, ℤ, lookup}
use docker_in_kubernetes.Podspec.Ports.{ContainerPort}

pub data Phase : Type 0 where
  pending running succeeded failed unknown : Phase
  other : Text → Phase

-- The three pointers of a container's state.
pub record ContainerState : Type 0 where
  pub waiting : Option (Text × Text)
  pub running : Bool
  pub terminated : Option (ℤ × ℕ)

-- Requests and limits, which the program sets to the same values: memory in bytes, milli-CPUs.
pub record Resources : Type 0 where
  pub memory : Option ℕ
  pub cpu : Option ℤ

pub record SecurityContext : Type 0 where
  pub run_as_user : ℕ
  pub run_as_group : Option ℕ

pub record Container : Type 0 where
  pub name : Text
  pub image : Text
  pub env : List (Text × Text)
  pub ports : List ContainerPort
  pub command : List Text
  pub args : List Text
  pub stdin : Bool
  pub stdin_once : Bool
  pub tty : Bool
  pub working_dir : Text
  pub resources : Resources
  pub security_context : Option SecurityContext

pub record Status : Type 0 where
  pub phase : Phase
  pub start_time : Option ℕ
  pub container_statuses : List ContainerState
  pub conditions : List (Text × Text)
  pub reason : Text
  pub pod_ip : Text

pub record Pod : Type 0 where
  pub name : Text
  pub namespace : Text
  pub labels : Dict Text
  pub annotations : Dict Text
  pub creation_timestamp : ℕ
  pub hostname : Text
  pub containers : List Container
  pub status : Status

-- Reading a key that a Go map does not have gives the empty string.
unfoldable pub value_of : Text → Dict Text → Text
value_of k m = elim (lookup k m) [ some v ↦ v | none ↦ [] ]
