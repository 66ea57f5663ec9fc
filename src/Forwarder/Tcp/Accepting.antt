-- ===== src/Forwarder/Tcp/Accepting.antt =====
-- internal/forwarder/tcp.go: the accept loop of a listener, and the proxy of one connection. The system's
-- Accept and Dial are parameters; the two copies of a proxy are steps on what the ends of the connection
-- have sent. A Write that fails ends its copy as the end of its source does.
use docker_in_kubernetes.Prelude.{
  ℕ, zero, suc, Bool, true, false, Option, none, some, List, [], ◌∷◌, ◌++◌, if◌then◌else◌,
}

-- What Accept returns: a connection, or an error.
pub data Accept : Type 0 where
  accepted : ℕ → Accept
  refused : Accept

-- acceptLoop, on fuel: the connections that were handed to a proxy, and whether a warning is logged.
-- `next i` is what the call i of Accept returns, and `is_closed i` whether the handle was closed then.
unfoldable pub accept_loop : (ℕ → Accept) → (ℕ → Bool) → ℕ → ℕ → Option (List ℕ × Bool)
accept_loop next is_closed zero i = none
accept_loop next is_closed (suc fuel) i =
    let rest = accept_loop next is_closed fuel (suc i) in
    elim (next i) [
      | refused ↦ some ([], (if is_closed i then false else true))
      | accepted conn ↦ elim rest [
        | none ↦ none
        | some (conns, warned) ↦ some (conn ∷ conns, warned)
      ]
    ]

-- What the client and the upstream do.
pub data Event : Type 0 where
  client_sends upstream_sends : List ℕ → Event
  client_ends upstream_ends : Event

-- The proxy: what each side was sent, which copy has ended, and whether both connections are closed.
pub record ProxyState : Type 0 where
  pub to_upstream : List ℕ
  pub to_client : List ℕ
  pub upload_done : Bool
  pub download_done : Bool
  pub is_closed : Bool

-- The state once the dial has succeeded. A dial that fails closes the client at once.
abbrev pub new_proxy : ProxyState
new_proxy = record {
  to_upstream = [];
  to_client = [];
  upload_done = false;
  download_done = false;
  is_closed = false;
}

-- One event: a copy moves bytes until its source ends; the connections are closed when both copies
-- have ended (wg.Wait, then the deferred closes).
unfoldable pub proxy_step : ProxyState → Event → ProxyState
proxy_step s (client_sends bytes) =
    if s.upload_done then s else record s { to_upstream = s.to_upstream ++ bytes }
proxy_step s (upstream_sends bytes) =
    if s.download_done then s else record s { to_client = s.to_client ++ bytes }
proxy_step s client_ends = record s { upload_done = true; is_closed = s.download_done }
proxy_step s upstream_ends = record s { download_done = true; is_closed = s.upload_done }

unfoldable pub proxy : ProxyState → List Event → ProxyState
proxy s [] = s
proxy s (e ∷ es) = proxy (proxy_step s e) es
