-- ===== src/Server/Containers/Stopping/Race.antt =====
-- internal/server/containers.go: start reads the pending container, asks the cluster for its pod, and only
-- then takes the entry from the store; other handlers may run in between.
use docker_in_kubernetes.Prelude.{
  ℕ, ◌≡◌, refl, ap, ◌∙◌, true, false, some, Text, ℤ, arith, ==_iff, ◌==◌,
}
use docker_in_kubernetes.K8s.{done}
use docker_in_kubernetes.Pod.{Pod}
use docker_in_kubernetes.Server.Pending.{
  Signal, new_signal, PendingContainer, err_pending_removed, get_by_ref, mark_failed, mark_started,
  mark_entry_started, signal_at, remove,
}
use docker_in_kubernetes.Server.Containers.Handlers.{
  Daemon, Context, start_pending, ensure_running, started_reply,
}
use docker_in_kubernetes.Server.Containers.Stopping.{terminate, drop_pending}
use docker_in_kubernetes.Server.Containers.Stopping as Stopping
use docker_in_kubernetes.Server.Containers.Stopping.Released.{
  ensure_running-pending, delete-terminate,
}

-- The failure comes first, and the start's mark changes nothing.
marked :
    (p : PendingContainer) (signals : ℕ → Signal)
    → signals p.signal ≡ new_signal
    → signal_at p.signal mark_started
        (signal_at p.signal (mark_failed err_pending_removed) signals)
        p.signal
      ≡ record { started = false; failure = some err_pending_removed; closes = 1 }
unfolding signal_at mark_started mark_failed
marked p signals fresh =
    let self : (p.signal == p.signal) ≡ true = (==_iff p.signal p.signal).1 refl in
    rw (self, fresh) refl

module _ {ℓ} {S : Type ℓ} (context : Context S) where
  -- ensureRunning leaves the cluster as it is.
  ensure_running-cluster :
      (name : Text) (d : Daemon S) (p : PendingContainer)
      → (started_reply context (ensure_running context name p.mappings d)).0.cluster ≡ d.cluster
  unfolding ensure_running
  ensure_running-cluster name d p = ground arith

  start_pending-done :
      (p : PendingContainer) (created : Pod) (d : Daemon S)
      → (context.pods.create d.cluster p.spec).1 ≡ done created
      → ((start_pending context p d).0.cluster ≡ (context.pods.create d.cluster p.spec).0)
        × ((start_pending context p d).0.pending ≡ remove p.id (mark_entry_started p d.pending))
  unfolding start_pending
  start_pending-done p created d c =
      let last = record d {
        cluster = (context.pods.create d.cluster p.spec).0;
        pending = remove p.id (mark_entry_started p d.pending);
      } in
      (
        ground (arith, c, ensure_running-cluster p.spec.name last p),
        ground (arith, c, ensure_running-pending context p.spec.name p.mappings last),
      )

  -- A start has read the pending container `p`, and before it creates the pod a stop, kill or rm drops the
  -- container. The drop is answered 204 and tells those who wait that the container was removed; then the
  -- start, if the cluster takes the pod, creates it all the same, and nobody is told. A rm does what a
  -- stop or kill does.
  pub start_race :
      (now : ℕ) (grace : ℤ) (ref : Text) (d : Daemon S) (p : PendingContainer) (created : Pod)
      → (get_by_ref now ref d.pending).1 ≡ some p
      → (get_by_ref now ref d.pending).0.signals p.signal ≡ new_signal
      → (context.pods.create d.cluster p.spec).1 ≡ done created
      → let (dropped, reply) = terminate context now grace ref d in
        let started = (start_pending context p dropped).0 in
        (Stopping.delete context now ref d ≡ terminate context now grace ref d)
        × (reply.status ≡ 204)
        × (started.cluster ≡ (context.pods.create d.cluster p.spec).0)
        × ((started.pending.signals p.signal).failure ≡ some err_pending_removed)
        × ((started.pending.signals p.signal).started ≡ false)
  unfolding terminate remove signal_at
  start_race now grace ref d p created h fresh c =
      let s = (get_by_ref now ref d.pending).0 in
      let t : terminate context now grace ref d
          ≡ drop_pending context p (record d { pending = s }) =
        ground (arith, h) in
      let dropped : Daemon S = (drop_pending context p (record d { pending = s })).0 in
      let (cluster, pending) = start_pending-done p created dropped c in
      let signal : (start_pending context p dropped).0.pending.signals p.signal
          ≡ record { started = false; failure = some err_pending_removed; closes = 1 } =
        ap (λ x. x.signals p.signal) pending ∙ marked p (s.signals) fresh in
      (
        delete-terminate context now grace ref d p h,
        ap (λ x. x.1.status) t,
        ap (λ x. (start_pending context p x.0).0.cluster) t ∙ cluster,
        ap (λ x. ((start_pending context p x.0).0.pending.signals p.signal).failure) t
            ∙ ap (λ g. g.failure) signal,
        ap (λ x. ((start_pending context p x.0).0.pending.signals p.signal).started) t
            ∙ ap (λ g. g.started) signal,
      )
