-- ===== src/Examples/Streams.antt =====
-- Streams and forwarders (internal/server/containers.go, internal/forwarder).
use docker_in_kubernetes.Prelude.{
  ℕ, ◌≡◌, ◌⊎◌, inr, Text, none, some, List, [], ◌∷◌, ◌++◌, Bool, false, Option, arith, Perm, ltb,
  ◌==◌, length,
}
use docker_in_kubernetes.Server.Frames.{write_chunks}
use docker_in_kubernetes.Server.Frames.Chunks.{frames, split, send_all, writes, write_chunks_total}
use docker_in_kubernetes.Forwarder.{Mapping}
use docker_in_kubernetes.Forwarder.Registry.{new_registry}
use docker_in_kubernetes.Forwarder.Registry.Ledger.{
  Call, sets, closes, known, run, handed, run-new_registry,
}
use docker_in_kubernetes.Forwarder.Tcp.{open_tcp}
use docker_in_kubernetes.Forwarder.Tcp.Listeners.{host_ports, IsAtomic, open_tcp-IsAtomic}

-- "hi" to stdout, "no" to stderr, "!" to stdout.
abbrev some_writes : List (ℕ × List ℕ)
some_writes = (1, b'h' ∷ b'i' ∷ []) ∷ (2, b'n' ∷ b'o' ∷ []) ∷ (1, b'!' ∷ []) ∷ []

-- A connection that fails once eight bytes are out.
abbrev up_to_eight : List ℕ → List ℕ → Bool
up_to_eight sent p = ltb (length sent) 8

write_chunks_total_example :
    (r : List ℕ × Bool) × (rest : List ℕ) × (write_chunks up_to_eight 3 [] 1 (b'h' ∷ b'i' ∷ [])
      ≡ some r)
    × (r ≡ send_all up_to_eight [] (writes 1 (split 3 (b'h' ∷ b'i' ∷ []))))
    × (r.0 ++ rest ≡ [] ++ frames 1 (split 3 (b'h' ∷ b'i' ∷ [])))
    × ((r.1 ≡ false) ⊎ (rest ≡ []))
write_chunks_total_example = write_chunks_total up_to_eight 3 [] 1 (b'h' ∷ b'i' ∷ []) (omega arith)

abbrev never_fails : ℕ → Option Text
never_fails h = none

abbrev some_calls : List (Call never_fails)
some_calls = sets (b'a' ∷ []) 1 ∷ sets (b'a' ∷ []) 2 ∷ closes (b'a' ∷ []) ∷ sets (b'b' ∷ []) 3 ∷ []

run-new_registry_example :
    Perm (known (run never_fails new_registry some_calls)) (handed never_fails some_calls)
run-new_registry_example = run-new_registry never_fails some_calls

abbrev refuses_22 : ℕ → Bool
refuses_22 port = port == 22

abbrev two_mappings : List Mapping
two_mappings =
    record { host_port = 8080; container_port = 80 }
    ∷ record { host_port = 22; container_port = 22 }
    ∷ []

open_tcp-IsAtomic_example :
    IsAtomic
      (host_ports two_mappings)
      (5432 ∷ [])
      (open_tcp refuses_22 (inr (b'x' ∷ [])) two_mappings (5432 ∷ []))
open_tcp-IsAtomic_example = open_tcp-IsAtomic refuses_22 (inr (b'x' ∷ [])) two_mappings (5432 ∷ [])
