-- ===== src/Examples/Processes.antt =====
-- The forwarders' connections, the socket and the process.
use docker_in_kubernetes.Prelude.{ℕ, ◌≡◌, refl, ◌&&◌, none, some, Option, List, [], ◌∷◌, Text, true}
use docker_in_kubernetes.Forwarder.{Mapping}
use docker_in_kubernetes.Forwarder.Registry.{new_registry}
use docker_in_kubernetes.Forwarder.Registry.Ledger.{Call, sets, closes, run}
use docker_in_kubernetes.Forwarder.Spdy.{Signals, Chosen, by_context, open_spdy}
use docker_in_kubernetes.Forwarder.Spdy.Tunnels.{IsTunnel, is_made, gives_up, open_spdy-IsTunnel}
use docker_in_kubernetes.Forwarder.Tcp.Accepting.{
  Event, client_sends, client_ends, upstream_sends, new_proxy, proxy,
}
use docker_in_kubernetes.Forwarder.Tcp.Proxied.{
  from_client, from_upstream, has_client_end, has_upstream_end, proxy_lem,
}
use docker_in_kubernetes.K8s.Connect.{Mode, ClientConfig, Connection}
use docker_in_kubernetes.Podspec.Ports.{Result, ok}
use docker_in_kubernetes.Process.{Flags, ProcessState}
use docker_in_kubernetes.Process.Socket.{
  PathState, socket, SystemErrors, owner_only, IsBound, listen_unix, listen_unix-IsBound,
}

abbrev never_closed : ℕ → ℕ
never_closed a = 0

-- The context ends before the tunnel is ready.
abbrev gone : Signals
gone = record { ready = true; failure = none; ctx = some (b'x' ∷ []) }

abbrev given_up : Chosen gone
given_up = by_context gone (b'x' ∷ []) refl

abbrev web_port : List Mapping
web_port = record { host_port = 80; container_port = 8080 } ∷ []

open_spdy-IsTunnel_example :
    IsTunnel 1 7 web_port
      (is_made none (λ ports. none) web_port && gives_up given_up)
      (open_spdy none (λ ports. none) gone given_up 7 web_port never_closed)
open_spdy-IsTunnel_example =
    open_spdy-IsTunnel none (λ ports. none) gone given_up 1 7 web_port never_closed refl

abbrev events : List Event
events = client_sends (1 ∷ []) ∷ upstream_sends (2 ∷ []) ∷ client_ends ∷ client_sends (3 ∷ []) ∷ []

proxy_lem_example :
    ((proxy new_proxy events).to_upstream ≡ from_client events)
    × ((proxy new_proxy events).to_client ≡ from_upstream events)
    × ((proxy new_proxy events).is_closed ≡ has_client_end events && has_upstream_end events)
proxy_lem_example = proxy_lem events

abbrev willing : SystemErrors
willing = record { lstat = none; remove = none; listen = none; chmod = none }

abbrev stale : PathState
stale = socket 493 true

listen_unix-IsBound_example : IsBound stale (listen_unix willing (b's' ∷ []) stale)
listen_unix-IsBound_example = listen_unix-IsBound willing (b's' ∷ []) stale

abbrev flags : Flags
flags = record { socket = b's' ∷ []; log_level = []; namespace = []; kubeconfig = []; context = [] }

abbrev parse_level : Text → Option Text
parse_level level = none

abbrev connect : ClientConfig → Result (Connection ℕ ℕ)
connect cfg = ok (record { clientset = 0; rest = 0; mode = Mode.in_cluster })

abbrev no_error : ℕ → Option Text
no_error h = none

abbrev calls : List (Call no_error)
calls = sets (b'a' ∷ []) 1 ∷ sets (b'b' ∷ []) 2 ∷ closes (b'a' ∷ []) ∷ []

abbrev used : ProcessState
used = record { path = socket owner_only true; registry = run no_error new_registry calls }
