-- ===== src/Server/Containers/Stopping/Released.antt =====
-- internal/server/containers.go: stop, kill, rm and start leave nothing behind.
use mathlib.Core.Path.{subst}
use docker_in_kubernetes.Prelude.{
  ℕ, [], false, none, some, List, ◌≡◌, sym, ap, ◌∙◌, inl, inr, Option-cases, arith, Text, lookup,
  lookup-delete_self, ==_iff, ℤ,
}
use docker_in_kubernetes.Forwarder.Registry.{has, close}
use docker_in_kubernetes.K8s.{Outcome-cases, error_text}
use docker_in_kubernetes.Pod.{Pod}
use docker_in_kubernetes.Podspec.Ports.{PortMapping}
use docker_in_kubernetes.Podspec.Identity.{container_id}
use docker_in_kubernetes.Server.Containers.Handlers.{
  Daemon, Context, start, start_pending, ensure_running, started_reply,
}
use docker_in_kubernetes.Server.Containers.Stopping.{terminate, delete_pod, drop_pending}
use docker_in_kubernetes.Server.Containers.Stopping as Stopping
use docker_in_kubernetes.Server.Pending.{
  Signal, PendingContainer, err_pending_removed, get_by_ref, mark_failed, mark_started,
  mark_entry_failed, mark_entry_started, signal_at, remove,
}
use docker_in_kubernetes.Server.Pending.Reaping.{get_by_ref-IsSignal}
use docker_in_kubernetes.Server.Pending.Signals.{
  IsSignal, IsWoken, mark-IsSignal, settled-IsWoken, signal_at-IsSignal,
}

marked_failed :
    (e : Text) (a : ℕ) (signals : ℕ → Signal)
    → ((b : ℕ) → IsSignal (signals b))
    → IsWoken (signal_at a (mark_failed e) signals a)
unfolding signal_at mark_failed
marked_failed e a signals w =
    settled-IsWoken (signal_at a (mark_failed e) signals a)
      (signal_at-IsSignal a (mark_failed e) signals (λ g good. (mark-IsSignal g e good).1) w a)
      (ground (arith, ==_iff a a))

marked_started :
    (a : ℕ) (signals : ℕ → Signal)
    → ((b : ℕ) → IsSignal (signals b))
    → IsWoken (signal_at a mark_started signals a)
unfolding signal_at mark_started
marked_started a signals w =
    settled-IsWoken (signal_at a mark_started signals a)
      (signal_at-IsSignal a mark_started signals (λ g good. (mark-IsSignal g [] good).0) w a)
      (ground (arith, ==_iff a a))

module _ {ℓ} {S : Type ℓ} (context : Context S) where
  -- That an entry has left the store, and that its channel was closed, once: whoever waits for it goes on.
  abbrev pub IsReleased : PendingContainer → Daemon S → Type 0
  IsReleased p d = (lookup p.id d.pending.m ≡ none) × IsWoken (d.pending.signals p.signal)

  -- A rm of a container that was not started does what a stop or kill does.
  pub delete-terminate :
      (now : ℕ) (grace : ℤ) (id : Text) (d : Daemon S) (p : PendingContainer)
      → (get_by_ref now id d.pending).1 ≡ some p
      → Stopping.delete context now id d ≡ terminate context now grace id d
  unfolding terminate Stopping.delete
  delete-terminate now grace id d p h = ground (arith, h)

  -- Where every signal is open and unmarked or was closed once, stopping or removing a
  -- container that was not started drops it, leaves its channel closed once, so that those
  -- who wait for it go on, and touches neither the cluster nor the forwarders; the reply is
  -- 204.
  pub drop-IsReleased :
      (now : ℕ) (grace : ℤ) (id : Text) (d : Daemon S) (p : PendingContainer)
      → (get_by_ref now id d.pending).1 ≡ some p
      → ((a : ℕ) → IsSignal (d.pending.signals a))
      → (terminate context now grace id d ≡ Stopping.delete context now id d)
        × IsReleased p (terminate context now grace id d).0
        × ((terminate context now grace id d).0.cluster ≡ d.cluster)
        × ((terminate context now grace id d).0.registry ≡ d.registry)
        × ((terminate context now grace id d).1.status ≡ 204)
  unfolding terminate Stopping.delete remove
  drop-IsReleased now grace id d p h w =
      let gone = lookup-delete_self p.id (get_by_ref now id d.pending).0.m in
      let woken =
        marked_failed err_pending_removed p.signal (get_by_ref now id d.pending).0.signals
          (get_by_ref-IsSignal now id d.pending w) in
      let dropped =
        drop_pending context p (record d { pending = (get_by_ref now id d.pending).0 }) in
      let t : terminate context now grace id d ≡ dropped = ground (arith, h) in
      (
        sym (delete-terminate now grace id d p h),
        (
          ap (λ x. lookup p.id x.0.pending.m) t ∙ gone,
          subst (λ x. IsWoken (x.0.pending.signals p.signal)) (sym t) woken,
        ),
        ap (λ x. x.0.cluster) t,
        ap (λ x. x.0.registry) t,
        ap (λ x. x.1.status) t,
      )

  -- Removing a live pod closes its forwarder, whatever the API server answers.
  pub delete_pod-closes :
      (pod : Pod) (grace : ℤ) (d : Daemon S)
      → has
          (delete_pod context pod grace d).0.registry
          (container_id context.sha256_hex pod.namespace pod.name)
        ≡ false
  unfolding delete_pod has close
  delete_pod-closes pod grace d =
      let id = container_id context.sha256_hex pod.namespace pod.name in
      let gone = lookup-delete_self id d.registry.handles in
      ground (
        arith,
        gone,
        Option-cases (lookup id d.registry.handles),
        Outcome-cases (context.pods.delete d.cluster pod.name grace).1,
      )

  -- ensureRunning leaves the pending containers as they are.
  pub ensure_running-pending :
      (name : Text) (ms : List PortMapping) (d : Daemon S)
      → (started_reply context (ensure_running context name ms d)).0.pending ≡ d.pending
  unfolding ensure_running
  ensure_running-pending name ms d = ground (arith)

  -- Where every signal is open and unmarked or was closed once, starting a pending container
  -- leaves its channel closed once, so that those who wait for it go on, and takes it from
  -- the store, also when the pod cannot be created or does not become ready.
  pub start-IsReleased :
      (now : ℕ) (id : Text) (d : Daemon S) (p : PendingContainer)
      → (get_by_ref now id d.pending).1 ≡ some p
      → ((a : ℕ) → IsSignal (d.pending.signals a))
      → IsReleased p (start context now id d).0
  unfolding start start_pending ensure_running remove
  start-IsReleased now id d p h w =
      let good = get_by_ref-IsSignal now id d.pending w in
      let s = (get_by_ref now id d.pending).0 in
      let gone = lookup-delete_self p.id s.m in
      let created = context.pods.create d.cluster p.spec in
      let t : start context now id d ≡ start_pending context p (record d { pending = s }) =
        ground (arith, h) in
      elim (Outcome-cases created.1) [
        | inr (e, c) ↦
            let woken = marked_failed (error_text e) p.signal s.signals good in
            let last = record d {
              cluster = created.0;
              pending = remove p.id (mark_entry_failed p (error_text e) s);
            } in
            let u : (start context now id d).0 ≡ last = ap (λ x. x.0) t ∙ ground (arith, c) in
            (
              ap (λ x. lookup p.id x.pending.m) u ∙ gone,
              subst (λ x. IsWoken (x.pending.signals p.signal)) (sym u) woken,
            )
        | inl (pod, c) ↦
            let woken = marked_started p.signal s.signals good in
            let last = record d {
              cluster = created.0;
              pending = remove p.id (mark_entry_started p s);
            } in
            let kept = ensure_running-pending p.spec.name p.mappings last in
            let u : (start context now id d).0.pending ≡ last.pending =
              ap (λ x. x.0.pending) t ∙ ground (arith, c, kept) in
            (
              ap (λ x. lookup p.id x.m) u ∙ gone,
              subst (λ x. IsWoken (x.signals p.signal)) (sym u) woken,
            )
      ]
