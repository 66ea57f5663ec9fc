-- ===== src/Forwarder/Tcp/Listeners.antt =====
-- Open is all or nothing, and Close undoes it (internal/forwarder/tcp.go).
use docker_in_kubernetes.Prelude.{
  ℕ, ◌≡◌, refl, ◌⊎◌, inl, inr, Bool, true, false, List, [], ◌∷◌, ◌++◌, arith, Bool-cases,
  append_assoc, append-nil, Text, if◌then◌else◌, ◌==◌, ==_iff, ◌||◌, All, All-append, All-imp,
}
use mathlib.Core.Path.{subst}
use docker_in_kubernetes.Forwarder.{Mapping}
use docker_in_kubernetes.Forwarder.Tcp.{
  TcpHandle, Opened, opened, no_pod_ip, resolve_failed, listen_failed, mem_port, free_port,
  free_ports, close, open_loop, open_tcp,
}

-- The host ports that Open listens on: those that are not 0.
abbrev pub host_ports : List Mapping → List ℕ
host_ports [] = []
host_ports (m ∷ ms) = if m.host_port == 0 then host_ports ms else m.host_port ∷ host_ports ms

All-mem_port : (P : ℕ → Type 0) (p : ℕ) (ls : List ℕ) → All P ls → mem_port p ls ≡ true → P p
unfolding mem_port
All-mem_port P p [] h m = cc
All-mem_port P p (q ∷ ls) h m = elim (Bool-cases (q == p)) [
  | inl same ↦ subst P ((==_iff q p).0 same) h.0
  | inr other ↦ All-mem_port P p ls h.1 (ground arith)
]

free_ports-cons :
    (ls listening : List ℕ) (p : ℕ)
    → mem_port p ls ≡ false
    → free_ports ls (p ∷ listening) ≡ p ∷ free_ports ls listening
unfolding free_ports mem_port
free_ports-cons [] listening p h = refl
free_ports-cons (q ∷ ls) listening p h =
    ground (arith, free_ports-cons ls (free_port q listening) p)

free_ports-append :
    (ls ms listening : List ℕ)
    → free_ports (ls ++ ms) listening ≡ free_ports ms (free_ports ls listening)
unfolding free_ports
free_ports-append [] ms listening = refl
free_ports-append (q ∷ ls) ms listening = free_ports-append ls ms (free_port q listening)

-- While Open runs, the handle's ports are in use, and freeing them gives the ports of before.
record Holds (before ls listening : List ℕ) : Type 0 where
  used : All (λ q. mem_port q listening ≡ true) ls
  undo : free_ports ls listening ≡ before

Holds-snoc :
    (before ls listening : List ℕ) (p : ℕ)
    → mem_port p listening ≡ false
    → Holds before ls listening
    → Holds before (ls ++ p ∷ []) (p ∷ listening)
unfolding mem_port
Holds-snoc before ls listening p free h = record {
  used =
      All-append (λ q. mem_port q (p ∷ listening) ≡ true) ls (p ∷ [])
        (All-imp (λ q used. ground arith) ls h.used) (ground arith, tt);
  undo =
      rw
        (
          free_ports-append ls (p ∷ []) (p ∷ listening),
          free_ports-cons ls listening p (fresh (Bool-cases (mem_port p ls))),
        )
        (unfold free_ports in ground (arith, h.undo));
}
  where
    fresh : (mem_port p ls ≡ true) ⊎ (mem_port p ls ≡ false) → mem_port p ls ≡ false
    fresh (inl m) =
        absurd (ground (arith, All-mem_port (λ q. mem_port q listening ≡ true) p ls h.used m))
    fresh (inr m) = m

-- What Open leaves behind: on success the handle has a listener for each host port that is not 0,
-- each of them in use, and closing the handle frees these ports and no other; on failure nothing
-- has changed.
abbrev pub IsAtomic : List ℕ → List ℕ → Opened × List ℕ → Type 0
IsAtomic ports before (opened h, after) =
    (h.listeners ≡ ports)
    × (h.is_closed ≡ false)
    × All (λ q. mem_port q after ≡ true) ports
    × ((close h after).1 ≡ before)
IsAtomic ports before (no_pod_ip, after) = after ≡ before
IsAtomic ports before (resolve_failed err, after) = after ≡ before
IsAtomic ports before (listen_failed p, after) = after ≡ before

module _ (refuses : ℕ → Bool) where
  open_loop-IsAtomic :
      (ms : List Mapping) (before ls listening : List ℕ)
      → Holds before ls listening
      → IsAtomic
          (ls ++ host_ports ms)
          before
          (open_loop refuses ms (record { listeners = ls; is_closed = false }) listening)
  unfolding open_loop close
  open_loop-IsAtomic [] before ls listening h = rw append-nil (refl, refl, h.used, h.undo)
  open_loop-IsAtomic (m ∷ ms) before ls listening h = elim (Bool-cases (m.host_port == 0)) [
    | inl skip ↦ rw (skip, open_loop, host_ports) (open_loop-IsAtomic ms before ls listening h)
    | inr real ↦ elim (Bool-cases (refuses m.host_port || mem_port m.host_port listening)) [
      | inl fail ↦ rw (real, open_loop, fail) h.undo
      | inr listen ↦
          let free : mem_port m.host_port listening ≡ false = ground arith in
          rw (real, open_loop, listen, ← append_assoc ls (m.host_port ∷ []) (host_ports ms))
            (open_loop-IsAtomic ms before (ls ++ m.host_port ∷ []) (m.host_port ∷ listening)
              (Holds-snoc before ls listening m.host_port free h))
    ]
  ]

  -- Open is all or nothing, whatever the pod's address is and whichever ports cannot be had.
  pub open_tcp-IsAtomic :
      (address : Text ⊎ Text) (ms : List Mapping) (listening : List ℕ)
      → IsAtomic (host_ports ms) listening (open_tcp refuses address ms listening)
  unfolding open_tcp
  open_tcp-IsAtomic (inl err) ms listening = refl
  open_tcp-IsAtomic (inr []) ms listening = refl
  open_tcp-IsAtomic (inr (c ∷ ip)) ms listening =
      open_loop-IsAtomic ms listening [] listening
        (record { used = tt; undo = unfold free_ports in refl })

-- A second Close changes nothing.
pub close_twice :
    (h : TcpHandle) (listening : List ℕ)
    → let (h', after) = close h listening in close h' after ≡ (h', after)
unfolding close
close_twice h listening = ground arith
