-- ===== src/Server/Containers/Views.antt =====
-- internal/server/containers.go: the handlers list and inspect.
pub mod Listed
use docker_in_kubernetes.Prelude.{
  int_lt, ℕ, zero, suc, Bool, true, false, not, ◌&&◌, ◌||◌, Option, none, some, List, [], ◌∷◌, ◌++◌,
  map, Text, text, if◌then◌else◌, filter, sort_by, ℤ, pos, negsuc, ltb, leb,
}
use docker_in_kubernetes.Forwarder.{Mapping}
use docker_in_kubernetes.Forwarder.Registry.{Registry, has, set_handle, close}
use docker_in_kubernetes.K8s.{PodStore, PodError, not_found, Outcome, done, fails, error_text}
use docker_in_kubernetes.Pod.{Pod}
use docker_in_kubernetes.Podspec.Build.{CreateRequest, BuildResult, build}
use docker_in_kubernetes.Podspec.Codec.{Codec}
use docker_in_kubernetes.Podspec.Identity.{container_id}
use docker_in_kubernetes.Podspec.Ports.{PortMapping, Result, ok, err}
use docker_in_kubernetes.Server.Containers.{
  LabelFilter, exit_code_from_pod, matches_label_filters, allocate_host_ports,
  write_ports_annotation, load_mappings_from_pod, to_forwarder_mappings, pod_terminated,
  parse_grace,
}
use docker_in_kubernetes.Server.Pending.{
  PendingContainer, PendingStore, reserve, remove, get_by_ref, mark_entry_started,
  mark_entry_failed, err_pending_removed, signal_at, new_signal,
}
use docker_in_kubernetes.Server.Pending as Pending
use docker_in_kubernetes.Server.Reply.{Reply, write_header, write_json, write_error}
use docker_in_kubernetes.Server.Summary.{DockerState, running, ContainerSummary, build_summary}
use docker_in_kubernetes.Server.Summary.Inspect.{ContainerInspect, build_inspect}
use docker_in_kubernetes.Server.Containers.Handlers.{Daemon, Context, no_such_container, id_of}

-- The containers that list shows: the pods, and with ?all=1 those pending.
abbrev pub is_shown : Bool → List LabelFilter → ContainerSummary → Bool
is_shown all filters s =
    (all || elim s.state [ running ↦ true | _ ↦ false ]) && matches_label_filters s.labels filters

abbrev pub newer : ContainerSummary → ContainerSummary → Bool
newer a b = int_lt b.created a.created

module _ {ℓ} {S : Type ℓ} (context : Context S) where
  unfoldable pub listing :
      ℕ → Bool → List LabelFilter → List Pod → List PendingContainer → List ContainerSummary
  listing now all filters pods pending =
      let summary = build_summary context.codec context.sha256_hex now in
      let live = filter (is_shown all filters) (map summary pods) in
      let staged =
        filter (λ s. matches_label_filters s.labels filters) (map (λ p. summary p.spec) pending) in
      sort_by newer (if all then live ++ staged else live)

  -- Handler list, on filters that were parsed.
  unfoldable pub list_containers :
      ℕ → Bool → Result (List LabelFilter) → Daemon S → Daemon S × Reply (List ContainerSummary)
  unfolding listing
  list_containers now all parsed d = elim (context.pods.list d.cluster) [
    | fails e ↦ (d, write_error 500 (error_text e))
    | done pods ↦ elim parsed [
      | err e ↦ (d, write_error 400 (text "invalid filters: " ++ e))
      | ok filters ↦
          let (pending, entries) = Pending.list now d.pending in
          let d' = record d { pending = pending } in
          let with_pending = write_json 200 (listing now all filters pods entries) in
          let without = write_json 200 (listing now all filters pods []) in
          if all then (d', with_pending) else (d, without)
    ]
  ]

  -- Handler inspect.
  unfoldable pub inspect : ℕ → Text → Daemon S → Daemon S × Reply ContainerInspect
  inspect now id d =
      let (pending, found) = get_by_ref now id d.pending in
      let d' = record d { pending = pending } in
      let show = λ (pod : Pod). build_inspect context.codec context.sha256_hex now pod in
      elim found [
        | some p ↦ (d', write_json 200 (show p.spec))
        | none ↦ elim (context.pods.find_by_id d.cluster id) [
          | fails not_found ↦ (d', write_error 404 (no_such_container id))
          | fails e ↦ (d', write_error 500 (error_text e))
          | done pod ↦ (d', write_json 200 (show pod))
        ]
      ]
