-- ===== src/Process/Life.antt =====
-- cmd/docker-in-kubernetes/main.go: what a start and an end of the daemon leave behind.
use docker_in_kubernetes.Prelude.{false, ◌≡◌, Option, none, some, Text}
use docker_in_kubernetes.K8s.Connect.{ClientConfig, Connection}
use docker_in_kubernetes.Podspec.Ports.{Result, ok}
use docker_in_kubernetes.Process.{Flags, ForwarderKind, forwarder_for}
use docker_in_kubernetes.Process.Socket.{
  PathState, absent, socket, owner_only, SystemErrors, IsBound,
}

-- What stands at the socket's path at the end: nothing; or, if the system refused to unlink it, a socket
-- on which nobody listens.
abbrev pub IsClosed : Option Text → PathState → Type 0
IsClosed none path = path ≡ absent
IsClosed (some e) path = path ≡ socket owner_only false

module _ {C R : Type 0} (parse_level : Text → Option Text)
    (connect : ClientConfig → Result (Connection C R)) (system : SystemErrors) where
  -- What a start that succeeds has done: it connected to the cluster, chose the forwarder of the mode, and
  -- bound the socket.
  pub record IsStarted (flags : Flags) (path path' : PathState) (kind : ForwarderKind)
      : Type 0 where
    pub conn : Connection C R
    pub connected :
        connect (record { kubeconfig_path = flags.kubeconfig; context = flags.context }) ≡ ok conn
    pub chosen : kind ≡ forwarder_for conn.mode
    pub bound : IsBound path (path', ok tt)
