-- ===== src/Server/Containers/Handlers/Forwarding.antt =====
-- internal/server/containers.go: forwarders are opened once and closed when the container ends.
use docker_in_kubernetes.Prelude.{
  ◌⊎◌, ◌∙◌, ◌≢◌, ap, true, false, none, List, ◌∷◌, ◌≡◌, inl, inr, Bool-cases, Option-cases, arith,
  Text, lookup, lookup-insert_self, lookup-delete_self,
}
use docker_in_kubernetes.Forwarder.{Mapping}
use docker_in_kubernetes.Forwarder.Registry.{has, set_handle, close}
use docker_in_kubernetes.K8s.{PodError, not_found, Outcome-cases, PodError-cases, done, fails}
use docker_in_kubernetes.Pod.{Pod}
use docker_in_kubernetes.Podspec.Ports.{PortMapping, Result-cases, ok}
use docker_in_kubernetes.Server.Containers.{to_forwarder_mappings, pod_terminated}
use docker_in_kubernetes.Server.Containers.Handlers.{Daemon, Context, ensure_running, id_of}
use docker_in_kubernetes.Server.Containers.Stopping.{watch_turn}

module _ {ℓ} {S : Type ℓ} (context : Context S) where
  -- A container that has a forwarder keeps it: ensureRunning opens no second one and closes none.
  pub ensure_running_once :
      (name : Text) (ms : List PortMapping) (d : Daemon S)
      → has d.registry (id_of context name) ≡ true
      → (ensure_running context name ms d).0 ≡ d
  unfolding ensure_running
  ensure_running_once name ms d h = elim (Outcome-cases (context.wait_for_ready d.cluster name)) [
    | inl (u, w) ↦ ground (arith, w, h)
    | inr (e, w) ↦ ground (arith, w, h, e)
  ]

  -- When ensureRunning succeeds on a pod that is ready, and there is a port to forward, the container
  -- has a forwarder.
  pub ensure_running-has :
      (name : Text) (ms : List PortMapping) (d : Daemon S) (m : Mapping) (pairs : List Mapping)
      → context.wait_for_ready d.cluster name ≡ done tt
      → to_forwarder_mappings ms ≡ ok (m ∷ pairs)
      → (ensure_running context name ms d).1 ≡ none
      → has (ensure_running context name ms d).0.registry (id_of context name) ≡ true
  unfolding ensure_running has set_handle
  ensure_running-has name ms d m pairs ready mapped fine =
      elim (Bool-cases (has d.registry (id_of context name))) [
        | inl h ↦ ground (arith, ready, h)
        | inr h ↦ elim (Result-cases (context.open_forwarder d.cluster name (m ∷ pairs))) [
          | inr (e, o) ↦ ground (arith, ready, h, mapped, o)
          | inl (handle, o) ↦ ground (
            arith,
            ready,
            h,
            mapped,
            o,
            lookup-insert_self (id_of context name) handle d.registry.handles,
            Option-cases (lookup (id_of context name) d.registry.handles),
          )
        ]
      ]

  -- Why a watcher stops: the container has no forwarder, or its pod is gone, or its pod has ended.
  abbrev pub IsOver : Text → Text → Daemon S → Type 0
  IsOver name id d =
      (has d.registry id ≡ false)
      ⊎ (context.pods.get d.cluster name ≡ fails not_found)
      ⊎ ((pod : Pod) × (context.pods.get d.cluster name ≡ done pod) × (pod_terminated pod ≡ true))

  -- Why it goes on: the container has a forwarder, and its pod has not ended, or cannot be read now.
  abbrev pub GoesOn : Text → Text → Daemon S → Type 0
  GoesOn name id d =
      (has d.registry id ≡ true)
      × (((pod : Pod) × (context.pods.get d.cluster name ≡ done pod) × (pod_terminated pod ≡ false))
          ⊎ ((e : PodError) × (e ≢ not_found) × (context.pods.get d.cluster name ≡ fails e)))

  -- The watcher stops just when the container has no forwarder, or its pod is gone or has ended, and then
  -- it has no forwarder left; otherwise, the pod read as not ended or not readable, it goes on and
  -- leaves the daemon as it is. It never touches the cluster or the pending containers.
  pub watch_turn_lem :
      (name id : Text) (d : Daemon S)
      → ((IsOver name id d
            × ((watch_turn context name id d).1 ≡ false)
            × (has (watch_turn context name id d).0.registry id ≡ false))
          ⊎ (GoesOn name id d
              × ((watch_turn context name id d).1 ≡ true)
              × ((watch_turn context name id d).0 ≡ d)))
        × ((watch_turn context name id d).0.cluster ≡ d.cluster)
        × ((watch_turn context name id d).0.pending ≡ d.pending)
  unfolding watch_turn has close
  watch_turn_lem name id d =
      let gone = lookup-delete_self id d.registry.handles in
      let either = Option-cases (lookup id d.registry.handles) in
      (
        elim (Bool-cases (has d.registry id)) [
          | inr h ↦ inl (inl h, ground (arith, h), ground (arith, h))
          | inl h ↦ elim (Outcome-cases (context.pods.get d.cluster name)) [
            | inr (x, g) ↦ elim (PodError-cases x) [
              | inl n ↦ inl (
                inr (inl (g ∙ ap fails n)),
                ground (arith, h, g, n),
                ground (arith, h, g, n, gone, either),
              )
              | inr (inl (r, m, n)) ↦ inr (
                (h, inr (x, λ e. ground (arith, n, e), g)),
                ground (arith, h, g, n),
                ground (arith, h, g, n),
              )
              | inr (inr (m, n)) ↦ inr (
                (h, inr (x, λ e. ground (arith, n, e), g)),
                ground (arith, h, g, n),
                ground (arith, h, g, n),
              )
            ]
            | inl (pod, g) ↦ elim (Bool-cases (pod_terminated pod)) [
              | inl t ↦ inl (
                inr (inr (pod, g, t)),
                ground (arith, h, g, t),
                ground (arith, h, g, t, gone, either),
              )
              | inr t ↦ inr ((h, inl (pod, g, t)), ground (arith, h, g, t), ground (arith, h, g, t))
            ]
          ]
        ],
        ground arith,
        ground arith,
      )
