-- ===== src/Forwarder/Tcp.antt =====
-- internal/forwarder/tcp.go: opening and closing the listeners of one container. `listening` holds
-- the ports of 127.0.0.1 that are in use, and `refuses` is the operating system's own reason not to
-- listen on a port. The accept loops and the proxied connections are input and output.
pub mod Listeners
pub mod Accepting
pub mod Proxied
use docker_in_kubernetes.Prelude.{
  ℕ, zero, suc, Bool, true, false, ◌||◌, ◌⊎◌, inl, inr, Option, none, some, List, [], ◌∷◌, ◌++◌,
  Text, text, ◌==◌, if◌then◌else◌, filter, not,
}
use docker_in_kubernetes.Forwarder.{Mapping}

-- A tcpHandle: the ports of its listeners, and isClosed.
pub record TcpHandle : Type 0 where
  pub listeners : List ℕ
  pub is_closed : Bool

-- What Open returns.
pub data Opened : Type 0 where
  opened : TcpHandle → Opened
  no_pod_ip : Opened
  resolve_failed : Text → Opened
  listen_failed : ℕ → Opened

unfoldable pub mem_port : ℕ → List ℕ → Bool
mem_port p [] = false
mem_port p (q ∷ ports) = (q == p) || mem_port p ports

-- Closing a listener frees its port.
unfoldable pub free_port : ℕ → List ℕ → List ℕ
free_port p [] = []
free_port p (q ∷ ports) = if q == p then ports else q ∷ free_port p ports

unfoldable pub free_ports : List ℕ → List ℕ → List ℕ
unfolding free_port
free_ports [] listening = listening
free_ports (p ∷ ports) listening = free_ports ports (free_port p listening)

-- Method Close of tcpHandle: the handle and the ports in use after it.
unfoldable pub close : TcpHandle → List ℕ → TcpHandle × List ℕ
unfolding free_ports
close h listening =
    if h.is_closed
    then (h, listening)
    else (record { listeners = []; is_closed = true }, free_ports h.listeners listening)

module _ (refuses : ℕ → Bool) where
  -- The loop of Open over the mappings.
  unfoldable pub open_loop : List Mapping → TcpHandle → List ℕ → Opened × List ℕ
  unfolding close mem_port
  open_loop [] h listening = (opened h, listening)
  open_loop (m ∷ ms) h listening =
      let skip = open_loop ms h listening in
      let listen =
        open_loop ms (record h { listeners = h.listeners ++ m.host_port ∷ [] })
          (m.host_port ∷ listening) in
      if m.host_port == 0
      then skip
      else if refuses m.host_port || mem_port m.host_port listening
      then (listen_failed m.host_port, (close h listening).1)
      else listen

  -- Method Open, from the pod's address.
  unfoldable pub open_tcp : Text ⊎ Text → List Mapping → List ℕ → Opened × List ℕ
  unfolding open_loop
  open_tcp (inl err) ms listening = (resolve_failed err, listening)
  open_tcp (inr []) ms listening = (no_pod_ip, listening)
  open_tcp (inr (c ∷ ip)) ms listening =
      open_loop ms (record { listeners = []; is_closed = false }) listening
