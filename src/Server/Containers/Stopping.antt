-- ===== src/Server/Containers/Stopping.antt =====
-- internal/server/containers.go: stop, kill, rm and wait, and the watcher of a pod's end.
pub mod Released
pub mod Race
use docker_in_kubernetes.Prelude.{
  ℕ, zero, suc, Bool, true, false, not, ◌&&◌, ◌||◌, Option, none, some, List, [], ◌∷◌, ◌++◌, map,
  Text, text, if◌then◌else◌, filter, sort_by, ℤ, pos, negsuc, ltb, leb,
}
use docker_in_kubernetes.Forwarder.{Mapping}
use docker_in_kubernetes.Forwarder.Registry.{Registry, has, set_handle, close}
use docker_in_kubernetes.K8s.{PodStore, PodError, not_found, Outcome, done, fails, error_text}
use docker_in_kubernetes.Pod.{Pod}
use docker_in_kubernetes.Podspec.Build.{CreateRequest, BuildResult, build}
use docker_in_kubernetes.Podspec.Codec.{Codec}
use docker_in_kubernetes.Podspec.Identity.{container_id}
use docker_in_kubernetes.Podspec.Ports.{PortMapping, Result, ok, err}
use docker_in_kubernetes.Server.Containers.{
  LabelFilter, exit_code_from_pod, matches_label_filters, allocate_host_ports,
  write_ports_annotation, load_mappings_from_pod, to_forwarder_mappings, pod_terminated,
  parse_grace,
}
use docker_in_kubernetes.Server.Pending.{
  PendingContainer, PendingStore, reserve, remove, get_by_ref, mark_entry_started,
  mark_entry_failed, err_pending_removed, signal_at, new_signal,
}
use docker_in_kubernetes.Server.Pending as Pending
use docker_in_kubernetes.Server.Reply.{Reply, write_header, write_json, write_error}
use docker_in_kubernetes.Server.Summary.{DockerState, running, ContainerSummary, build_summary}
use docker_in_kubernetes.Server.Summary.Inspect.{ContainerInspect, build_inspect}
use docker_in_kubernetes.Server.Containers.Handlers.{Daemon, Context, no_such_container, id_of}

module _ {ℓ} {S : Type ℓ} (context : Context S) where
  unfoldable pub delete_pod : Pod → ℤ → Daemon S → Daemon S × Reply Text
  delete_pod pod grace d =
      let id = container_id context.sha256_hex pod.namespace pod.name in
      let registry = (close context.close_error d.registry id).0 in
      let (cluster, out) = context.pods.delete d.cluster pod.name grace in
      let d' = record d { registry = registry; cluster = cluster } in
      elim out [
        | done u ↦ (d', write_header 204)
        | fails not_found ↦ (d', write_header 204)
        | fails e ↦ (d', write_error 500 (error_text e))
      ]

  -- The pending container that stop, kill and rm drop.
  abbrev pub drop_pending : PendingContainer → Daemon S → Daemon S × Reply Text
  drop_pending p d = (
    record d { pending = remove p.id (mark_entry_failed p err_pending_removed d.pending) },
    write_header 204,
  )

  -- Handlers stop and kill, with their grace.
  unfoldable pub terminate : ℕ → ℤ → Text → Daemon S → Daemon S × Reply Text
  unfolding delete_pod
  terminate now grace id d =
      let (pending, found) = get_by_ref now id d.pending in
      let d' = record d { pending = pending } in
      elim found [
        | some p ↦ drop_pending p d'
        | none ↦ elim (context.pods.find_by_id d.cluster id) [
          | fails not_found ↦ (d', write_error 404 (no_such_container id))
          | fails e ↦ (d', write_error 500 (error_text e))
          | done pod ↦ delete_pod pod grace d'
        ]
      ]

  -- Handler delete.
  unfoldable pub delete : ℕ → Text → Daemon S → Daemon S × Reply Text
  unfolding delete_pod
  delete now id d =
      let (pending, found) = get_by_ref now id d.pending in
      let d' = record d { pending = pending } in
      elim found [
        | some p ↦ drop_pending p d'
        | none ↦ elim (context.pods.find_by_id d.cluster id) [
          | fails not_found ↦ (d', write_header 204)
          | fails e ↦ (d', write_error 500 (error_text e))
          | done pod ↦ delete_pod pod (pos 0) d'
        ]
      ]

  abbrev pub stop : ℕ → Text → Text → Daemon S → Daemon S × Reply Text
  stop now t id d = terminate now (parse_grace t (pos 10000000000)) id d

  abbrev pub kill : ℕ → Text → Daemon S → Daemon S × Reply Text
  kill now id d = terminate now (pos 0) id d

  -- One turn of watchPodForCleanup: whether it goes on.
  unfoldable pub watch_turn : Text → Text → Daemon S → Daemon S × Bool
  watch_turn name id d =
      let closed = record d { registry = (close context.close_error d.registry id).0 } in
      if not (has d.registry id) then (d, false) else elim (context.pods.get d.cluster name) [
        | fails not_found ↦ (closed, false)
        | fails e ↦ (d, true)
        | done pod ↦ if pod_terminated pod then (closed, false) else (d, true)
      ]

  -- One turn of waitForExit: the exit code, whether the pod is gone, or an error; or another turn.
  unfoldable pub exit_turn : Text → S → Option (Result (ℤ × Bool))
  exit_turn name s = elim (context.pods.get s name) [
    | fails not_found ↦ some (ok (pos 0, true))
    | fails e ↦ some (err (error_text e))
    | done pod ↦ elim (exit_code_from_pod pod) [ some exit ↦ some (ok (exit, false)) | none ↦ none ]
  ]

  -- The end of wait: with condition=removed the pod that exited is deleted.
  unfoldable pub wait_end : Text → ℤ × Bool → Bool → Daemon S → Daemon S × (ℤ × Bool)
  wait_end name (exit, gone) removed d =
      let registry = (close context.close_error d.registry (id_of context name)).0 in
      let cluster = (context.pods.delete d.cluster name (pos 0)).0 in
      if gone || not removed
      then (d, (exit, gone))
      else (record d { registry = registry; cluster = cluster }, (exit, gone))
