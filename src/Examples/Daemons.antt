-- ===== src/Examples/Daemons.antt =====
-- The daemon: pending containers and the handlers (internal/server).
use docker_in_kubernetes.Prelude.{
  parse_uint, ◌&&◌, ℕ, zero, suc, ◌+◌, ◌<◌, ◌≤◌, ◌≡◌, ◌≢◌, ◌↔◌, ◌⊎◌, inl, inr, refl, none, some,
  Option, List, [], ◌∷◌, ◌++◌, map, filter, Text, text, Dict, lookup, Distinct, Bool, true, false,
  All, Perm, IsSorted, arith, ℤ, pos, if◌then◌else◌, length,
}
use docker_in_kubernetes.Forwarder.{Mapping}
use docker_in_kubernetes.Forwarder.Registry.{new_registry, has}
use docker_in_kubernetes.K8s.{PodStore, pod_store, done, fails, Outcome}
use docker_in_kubernetes.Pod.{Pod}
use docker_in_kubernetes.Podspec.Build.{CreateRequest}
use docker_in_kubernetes.Podspec.Ports.{PortMapping, Result, ok, err}
use docker_in_kubernetes.Server.Pending.{
  Signal, new_signal, PendingContainer, PendingStore, new_pending_store, reserve, remove,
  get_by_ref, reap, is_expired,
}
use docker_in_kubernetes.Server.Pending.Signals.{IsSignal, IsWoken}
use docker_in_kubernetes.Server.Pending.Reaping.{reap_lem}
use docker_in_kubernetes.Server.Pending.Reserved.{IsWellformed, reserve-IsWellformed, reserve_holds}
use docker_in_kubernetes.Server.Containers.{
  LabelFilter, matches_label_filters, allocate_host_ports, to_forwarder_mappings,
}
use docker_in_kubernetes.Server.Containers.Requests.{
  IsRequest, container_ports, host_ports, allocate-forwarded,
}
use docker_in_kubernetes.Server.Containers.Handlers.{
  Daemon, Context, create, start, ensure_running, id_of,
}
use docker_in_kubernetes.Server.Containers.Handlers.Conflict.{create_twice_named}
use docker_in_kubernetes.Server.Containers.Handlers.Forwarding.{watch_turn_lem, IsOver, GoesOn}
use docker_in_kubernetes.Server.Containers.Stopping.{terminate, watch_turn}
use docker_in_kubernetes.Server.Containers.Stopping as Stopping
use docker_in_kubernetes.Server.Containers.Stopping.Released.{
  IsReleased, drop-IsReleased, start-IsReleased,
}
use docker_in_kubernetes.Server.Containers.Views.{listing}
use docker_in_kubernetes.Server.Containers.Views.Listed.{
  IsListed, passes, is_running, is_later, listing_lem,
}
use docker_in_kubernetes.Server.Summary.{build_summary}
use docker_in_kubernetes.Examples.Cluster.{api, web, web_pod}
use docker_in_kubernetes.Examples.Encoding.{plain}
use docker_in_kubernetes.Examples.Pods.{digest, request}

abbrev pub entry : PendingContainer
entry = record {
  id = b'i' ∷ [];
  docker_name = web;
  spec = web_pod;
  mappings = [];
  created_at = 5;
  signal = 0;
}

-- Another container with the same name.
abbrev rival : PendingContainer
rival = record entry { id = b'j' ∷ []; signal = 1 }

abbrev pub open_signals : ℕ → Signal
open_signals a = new_signal

abbrev pub empty_store : PendingStore
empty_store = new_pending_store 3600 open_signals

abbrev pub entry_store : PendingStore
entry_store = record empty_store { m = (entry.id, entry) ∷ [] }

empty_store-IsWellformed : IsWellformed empty_store
empty_store-IsWellformed = record { distinct = tt; own_ids = tt; own_names = tt }

reserve-IsWellformed_example :
    IsWellformed (reserve 5 entry entry.docker_name empty_store).0
    × IsWellformed (remove entry.id empty_store)
reserve-IsWellformed_example = reserve-IsWellformed 5 entry empty_store empty_store-IsWellformed

entry_reserved : (reserve 5 entry entry.docker_name empty_store).1 ≡ true
unfolding reserve lookup
entry_reserved = refl

entry_fresh : is_expired 9 empty_store.ttl entry ≡ false
entry_fresh = refl

web-ne : entry.docker_name ≢ []
web-ne e = ground arith

reserve_holds_example :
    ((get_by_ref 9 entry.id (reserve 5 entry entry.docker_name empty_store).0).1 ≡ some entry)
    × ((reserve 9 rival rival.docker_name (reserve 5 entry entry.docker_name empty_store).0).1
        ≡ false)
reserve_holds_example =
    reserve_holds 5 9 entry rival empty_store entry_reserved entry_fresh (inr (web-ne, refl))

entry_there : lookup entry.id entry_store.m ≡ some entry
unfolding lookup docker_in_kubernetes.Prelude.text_eq
entry_there = refl

all_waiting : (a : ℕ) → IsSignal (open_signals a)
all_waiting a = IsSignal.waiting

reap_lem_example :
    (lookup entry.id (reap 9999 entry_store).m
      ≡ (if is_expired 9999 entry_store.ttl entry then none else some entry))
    × ((is_expired 9999 entry_store.ttl entry ≡ false)
        ⊎ IsWoken ((reap 9999 entry_store).signals entry.signal))
reap_lem_example =
    reap_lem 9999 entry_store entry.id entry (omega arith) (tt, tt) entry_there all_waiting

abbrev pub context : Context (List Pod)
context = record {
  namespace = web;
  pods = pod_store api digest;
  codec = plain;
  sha256_hex = digest;
  close_error = λ h. none;
  listen = λ taken. ok 40000;
  wait_for_ready = λ s name. done tt;
  open_forwarder = λ s name ms. ok 1;
}

abbrev pub idle : Daemon (List Pod)
idle = record { pending = empty_store; registry = new_registry; cluster = [] }

abbrev pub waiting : Daemon (List Pod)
waiting = record idle { pending = entry_store }

abbrev portless : CreateRequest
portless = record request { exposed_ports = [] }

web_created : (create context 5 0 [] portless web idle).1.status ≡ 201
unfolding create docker_in_kubernetes.Podspec.Build.build
    docker_in_kubernetes.Podspec.Name.sanitize_name docker_in_kubernetes.Podspec.Name.collapse
    docker_in_kubernetes.Podspec.Name.is_alnum docker_in_kubernetes.Podspec.Name.to_lower
    docker_in_kubernetes.Podspec.Ports.parse_port_bindings
    docker_in_kubernetes.Podspec.Ports.bind_loop docker_in_kubernetes.Podspec.Ports.expose_loop
    docker_in_kubernetes.Prelude.text_eq text allocate_host_ports
    docker_in_kubernetes.Prelude.sort_by docker_in_kubernetes.Podspec.Build.pod_name_of
    docker_in_kubernetes.Podspec.Build.require
    docker_in_kubernetes.Podspec.Build.security_context_of
    docker_in_kubernetes.Server.Containers.Handlers.claim reserve reap lookup
    docker_in_kubernetes.Server.Pending.is_free docker_in_kubernetes.Server.Pending.find
    docker_in_kubernetes.K8s.get docker_in_kubernetes.Examples.Cluster.get_pod
web_created = refl

create_twice_named_example :
    (create context 9 1 [] portless web (create context 5 0 [] portless web idle).0).1.status ≢ 201
create_twice_named_example =
    create_twice_named context 5 0 9 1 [] [] portless portless b'w' (b'e' ∷ b'b' ∷ []) idle
      web_created (omega arith)

pub entry_got : (get_by_ref 9 web waiting.pending).1 ≡ some entry
unfolding get_by_ref lookup docker_in_kubernetes.Prelude.text_eq
    docker_in_kubernetes.Podspec.Identity.short_id
entry_got = refl

start-IsReleased_example : IsReleased context entry (start context 9 web waiting).0
start-IsReleased_example = start-IsReleased context 9 web waiting entry entry_got all_waiting

drop-IsReleased_example :
    (terminate context 9 (pos 0) web waiting ≡ Stopping.delete context 9 web waiting)
    × IsReleased context entry (terminate context 9 (pos 0) web waiting).0
    × ((terminate context 9 (pos 0) web waiting).0.cluster ≡ waiting.cluster)
    × ((terminate context 9 (pos 0) web waiting).0.registry ≡ waiting.registry)
    × ((terminate context 9 (pos 0) web waiting).1.status ≡ 204)
drop-IsReleased_example = drop-IsReleased context 9 (pos 0) web waiting entry entry_got all_waiting

abbrev http : PortMapping
http = record { host_port = b'9' ∷ []; container_port = 80; protocol = text "tcp" }

abbrev any_port : PortMapping
any_port = record { host_port = []; container_port = 53; protocol = text "udp" }

abbrev http_pair : Mapping
http_pair = record { host_port = 9; container_port = 80 }

abbrev given_port : PortMapping
given_port = record { host_port = b'4' ∷ b'0' ∷ []; container_port = 53; protocol = text "udp" }

abbrev listen_40 : List ℕ → Result ℕ
listen_40 taken = ok 40

listen_40_valid : (taken : List ℕ) (port : ℕ) → listen_40 taken ≡ ok port → port ≤ 65535
listen_40_valid taken port h = ground arith

nine : parse_uint 65535 (b'9' ∷ []) ≡ some 9
unfolding parse_uint docker_in_kubernetes.Prelude.digits_from
nine = refl

two_requests : All IsRequest (http ∷ any_port ∷ [])
two_requests = (inr (inr (9, nine)), (inl refl, tt))

two_allocated :
    allocate_host_ports listen_40 [] (http ∷ any_port ∷ []) ≡ ok (http ∷ given_port ∷ [])
unfolding allocate_host_ports docker_in_kubernetes.Prelude.text_eq text
    docker_in_kubernetes.Prelude.itoa
two_allocated = refl

allocate-forwarded_example :
    (pairs : List Mapping) × (to_forwarder_mappings (http ∷ given_port ∷ []) ≡ ok pairs)
    × (map (λ p. p.container_port) pairs ≡ container_ports (http ∷ any_port ∷ []))
    × (map (λ p. some p.host_port) pairs ≡ host_ports (http ∷ given_port ∷ []))
allocate-forwarded_example =
    allocate-forwarded listen_40 listen_40_valid [] (http ∷ any_port ∷ []) (http ∷ given_port ∷ [])
      two_requests two_allocated

abbrev key_filter : LabelFilter
key_filter = record { key = b'k' ∷ []; value = none }

abbrev key_labels : Dict Text
key_labels = (b'k' ∷ [], b'v' ∷ []) ∷ []

listing_lem_example :
    Perm (listing context 9 false [] (web_pod ∷ []) []) (
      if false
      then filter (passes []) (
          map (build_summary plain digest 9) (web_pod ∷ [])
          ++ map (λ (p : PendingContainer). build_summary plain digest 9 p.spec) [])
      else filter
          (λ s. is_running s.state && passes [] s)
          (map (build_summary plain digest 9) (web_pod ∷ [])))
    × IsSorted is_later (listing context 9 false [] (web_pod ∷ []) [])
    × All (IsListed false []) (listing context 9 false [] (web_pod ∷ []) [])
listing_lem_example = listing_lem context 9 false [] (web_pod ∷ []) []

watch_turn_lem_example :
    ((IsOver context web web waiting
        × ((watch_turn context web web waiting).1 ≡ false)
        × (has (watch_turn context web web waiting).0.registry web ≡ false))
      ⊎ (GoesOn context web web waiting
          × ((watch_turn context web web waiting).1 ≡ true)
          × ((watch_turn context web web waiting).0 ≡ waiting)))
    × ((watch_turn context web web waiting).0.cluster ≡ waiting.cluster)
    × ((watch_turn context web web waiting).0.pending ≡ waiting.pending)
watch_turn_lem_example = watch_turn_lem context web web waiting

http_mapped : to_forwarder_mappings (http ∷ []) ≡ ok (http_pair ∷ [])
unfolding to_forwarder_mappings parse_uint docker_in_kubernetes.Prelude.digits_from
http_mapped = refl

http_opened : (ensure_running context web (http ∷ []) waiting).1 ≡ none
unfolding ensure_running has lookup to_forwarder_mappings parse_uint
    docker_in_kubernetes.Prelude.digits_from
http_opened = refl
