-- ===== src/Server/Containers/Handlers/Conflict.antt =====
-- internal/server/containers.go: create does not give a name twice.
use docker_in_kubernetes.Prelude.{
  ℕ, ◌+◌, ◌≤◌, true, false, [], ◌∷◌, ◌≡◌, ◌≢◌, refl, sym, ap, ◌∙◌, inl, inr, Bool-cases, arith,
  Text, Text-cases, Dict, ◌==◌,
}
use docker_in_kubernetes.K8s.{Outcome-cases}
use docker_in_kubernetes.Podspec.Build.{CreateRequest, BuildInput, build}
use docker_in_kubernetes.Podspec.Ports.{Result-cases}
use docker_in_kubernetes.Server.Containers.{allocate_host_ports}
use docker_in_kubernetes.Server.Containers.Handlers.{Daemon, Context, claim, create, new_entry}
use docker_in_kubernetes.Server.Pending.{
  Signal, PendingContainer, PendingStore, reserve, reap, reap_loop, is_expired, is_free,
  mark_failed, signal_at, err_pending_expired, new_signal,
}
use docker_in_kubernetes.Server.Pending.Reserved.{reserve_holds}

-- Which entries are reaped, and so what is reserved, does not depend on the signals.
reap_loop-signals :
    (now ttl : ℕ) (m : Dict PendingContainer) (f g : ℕ → Signal)
    → (reap_loop now ttl m f).0 ≡ (reap_loop now ttl m g).0
unfolding reap_loop
reap_loop-signals now ttl [] f g = refl
reap_loop-signals now ttl ((id, p) ∷ m) f g = ground (
  arith,
  reap_loop-signals now ttl m f g,
  reap_loop-signals now ttl m (signal_at p.signal (mark_failed err_pending_expired) f)
      (signal_at p.signal (mark_failed err_pending_expired) g),
)

reserve-signals :
    (now : ℕ) (p : PendingContainer) (name : Text) (s : PendingStore) (g : ℕ → Signal)
    → (reserve now p name (record s { signals = g })).1 ≡ (reserve now p name s).1
unfolding reserve reap
reserve-signals now p name s g =
    let same : (reap now (record s { signals = g })).m ≡ (reap now s).m =
      ground (arith, reap_loop-signals now s.ttl s.m g s.signals, Bool-cases (s.ttl == 0)) in
    let free = ap (is_free p name) same in
    ground (arith, free, Bool-cases (is_free p name (reap now s).m))

module _ {ℓ} {S : Type ℓ} (context : Context S) where
  claim-created :
      (now : ℕ) (entry : PendingContainer) (d : Daemon S)
      → (claim context now entry d).1.status ≡ 201
      → ((reserve now entry entry.docker_name d.pending).1 ≡ true)
        × ((claim context now entry d).0.pending
            ≡ (reserve now entry entry.docker_name d.pending).0)
  unfolding claim
  claim-created now entry d h =
      elim (Bool-cases (reserve now entry entry.docker_name d.pending).1) [
        | inr r ↦ ground (arith, r)
        | inl r ↦ elim (Outcome-cases (context.pods.get d.cluster entry.spec.name)) [
          | inl (pod, g) ↦ ground (arith, r, g)
          | inr (e, g) ↦ (r, ground (arith, r, g))
        ]
      ]

  -- What a create that replied 201 has reserved.
  create-created :
      (now signal : ℕ) (suffix : Text) (request : CreateRequest) (name : Text) (d : Daemon S)
      → (create context now signal suffix request name d).1.status ≡ 201
      → (entry : PendingContainer) × (signals : ℕ → Signal) × (entry.docker_name ≡ name)
        × (entry.created_at ≡ now)
        × ((reserve now entry entry.docker_name (record d.pending { signals = signals })).1 ≡ true)
        × ((create context now signal suffix request name d).0.pending
            ≡ (reserve now entry entry.docker_name (record d.pending { signals = signals })).0)
  unfolding create
  create-created now signal suffix request name d h =
      let input : BuildInput = record {
        namespace = context.namespace;
        docker_name = name;
        project = [];
        now = now;
        request = request;
        suffix = suffix;
      } in
      elim (Text-cases request.image) [
        | inl i ↦ ground (arith, i)
        | inr (c, cs, i) ↦ elim (Result-cases (build context.codec input)) [
          | inr (e, b) ↦ ground (arith, i, b)
          | inl (built, b) ↦
              elim (Result-cases (allocate_host_ports context.listen [] built.port_mappings)) [
                | inr (e, a) ↦ ground (arith, i, b, a)
                | inl (mappings, a) ↦
                    let entry = new_entry context now signal name built mappings in
                    let signals = signal_at signal (λ g. new_signal) d.pending.signals in
                    let d' = record d { pending = record d.pending { signals = signals } } in
                    let t : create context now signal suffix request name d
                        ≡ claim context now entry d' =
                      ground (arith, i, b, a) in
                    let (reserved, pending) =
                      claim-created now entry d' (ap (λ x. x.1.status) (sym t) ∙ h) in
                    (entry, signals, refl, refl, reserved, ap (λ x. x.0.pending) t ∙ pending)
              ]
        ]
      ]

  -- A name is not given twice: while the first container has neither been started nor expired, a create
  -- with its --name, on the state that the first left, does not succeed.
  pub create_twice_named :
      (now signal later signal' : ℕ) (suffix suffix' : Text) (request request' : CreateRequest)
      (c : ℕ) (name : Text) (d : Daemon S)
      → (create context now signal suffix request (c ∷ name) d).1.status ≡ 201
      → later ≤ now + d.pending.ttl
      → (create context later signal' suffix' request'
          (c ∷ name)
          (create context now signal suffix request (c ∷ name) d).0).1.status
        ≢ 201
  create_twice_named now signal later signal' suffix suffix' request request' c name d h t again =
      let first = (create context now signal suffix request (c ∷ name) d).0 in
      let (p, f, p_name, p_created, p_reserved, p_pending) =
        create-created now signal suffix request (c ∷ name) d h in
      let (q, g, q_name, q_created, q_reserved, q_pending) =
        create-created later signal' suffix' request' (c ∷ name) first again in
      let fresh : is_expired later d.pending.ttl p ≡ false = ground (arith, p_created) in
      let named : p.docker_name ≢ [] = λ e. ground (arith, p_name, e) in
      let refused =
        (reserve_holds now later p q (record d.pending { signals = f }) p_reserved fresh
          (inr (named, q_name ∙ sym p_name))).1 in
      let same = reserve-signals later q q.docker_name first.pending g in
      let moved = ap (λ s. (reserve later q q.docker_name s).1) p_pending in
      ground (arith, q_reserved, refused, same, moved)
