-- ===== src/Process.antt =====
-- cmd/docker-in-kubernetes/main.go: the life of the daemon, on what the libraries and the system return.
pub mod Socket
pub mod Life
use docker_in_kubernetes.Prelude.{
  ℕ, Bool, true, false, Option, none, some, List, [], ◌∷◌, ◌++◌, Text, text, if◌then◌else◌,
}
use docker_in_kubernetes.Forwarder.Registry.{Registry, shutdown}
use docker_in_kubernetes.K8s.Connect.{Mode, local, in_cluster, ClientConfig, Connection}
use docker_in_kubernetes.Podspec.Ports.{Result, ok, err}
use docker_in_kubernetes.Process.Socket.{PathState, SystemErrors, listen_unix, close_listener}

-- The flags that run reads.
pub record Flags : Type 0 where
  pub socket : Text
  pub log_level : Text
  pub namespace : Text
  pub kubeconfig : Text
  pub context : Text

-- logutil.New: `parse_level` is slog's UnmarshalText, with its error.
unfoldable pub new_logger : (Text → Option Text) → Text → Option Text
new_logger parse_level level = elim (parse_level level) [
  | none ↦ none
  | some e ↦ some (text "invalid log level \"" ++ level ++ text "\": " ++ e)
]

-- The forwarder that run makes.
pub data ForwarderKind : Type 0 where
  tcp spdy : ForwarderKind

abbrev pub forwarder_for : Mode → ForwarderKind
forwarder_for in_cluster = tcp
forwarder_for local = spdy

-- How serving ends: by a signal, by Serve with an error that is not ErrServerClosed, or by ErrServerClosed.
pub data ServeEnd : Type 0 where
  signalled server_closed : ServeEnd
  serve_failed : Text → ServeEnd

-- The state of the process: the path of the socket, and the registry of forwarders.
pub record ProcessState : Type 0 where
  pub path : PathState
  pub registry : Registry

module _ {C R : Type 0} (parse_level : Text → Option Text)
    (connect : ClientConfig → Result (Connection C R)) (system : SystemErrors) where
  -- run, up to serving: the socket, and the forwarder of the mode; or the error that it returns.
  unfoldable pub start : Flags → PathState → PathState × Result ForwarderKind
  unfolding new_logger listen_unix
  start flags path = elim (new_logger parse_level flags.log_level) [
    | some e ↦ (path, err e)
    | none ↦
        elim (connect (record { kubeconfig_path = flags.kubeconfig; context = flags.context })) [
          | err e ↦ (path, err (text "kubernetes connect: " ++ e))
          | ok conn ↦
              let (path', listening) = listen_unix system flags.socket path in
              elim listening [
                | err e ↦ (path', err e)
                | ok u ↦ (path', ok (forwarder_for conn.mode))
              ]
        ]
  ]

-- run from the end of serving on: the error that it returns. Serve closes the listener before it returns,
-- and Shutdown of the server closes it after a signal; `unlink` is the error of the unlink that this
-- makes. Both shutdowns only log their errors.
unfoldable pub finish :
    (ℕ → Option Text) → Option Text → ServeEnd → ProcessState → ProcessState × Option Text
unfolding close_listener
finish close_error unlink (serve_failed e) s =
    (record s { path = close_listener unlink s.path }, some (text "serve: " ++ e))
finish close_error unlink how s = (
  record { path = close_listener unlink s.path; registry = (shutdown close_error s.registry).0 },
  none,
)
