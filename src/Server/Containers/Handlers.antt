-- ===== src/Server/Containers/Handlers.antt =====
-- internal/server/containers.go: the handlers. `signal` is the address of the channel and flags that
-- create makes, `listen` opens a listener on a free port, and `wait_for_ready` is what WaitForReady
-- returns. `open_forwarder` is the forwarder's Open, whose handle is a number.
pub mod Conflict
pub mod Forwarding
use docker_in_kubernetes.Prelude.{
  ℕ, zero, suc, Bool, true, false, not, ◌&&◌, ◌||◌, Option, none, some, List, [], ◌∷◌, ◌++◌, map,
  Text, text, if◌then◌else◌, filter, sort_by, ℤ, pos, negsuc, ltb, leb,
}
use docker_in_kubernetes.Forwarder.{Mapping}
use docker_in_kubernetes.Forwarder.Registry.{Registry, has, set_handle, close}
use docker_in_kubernetes.K8s.{PodStore, PodError, not_found, Outcome, done, fails, error_text}
use docker_in_kubernetes.Pod.{Pod}
use docker_in_kubernetes.Podspec.Build.{CreateRequest, BuildResult, build}
use docker_in_kubernetes.Podspec.Codec.{Codec}
use docker_in_kubernetes.Podspec.Identity.{container_id}
use docker_in_kubernetes.Podspec.Ports.{PortMapping, Result, ok, err}
use docker_in_kubernetes.Server.Containers.{
  LabelFilter, exit_code_from_pod, matches_label_filters, allocate_host_ports,
  write_ports_annotation, load_mappings_from_pod, to_forwarder_mappings, pod_terminated,
  parse_grace,
}
use docker_in_kubernetes.Server.Pending.{
  PendingContainer, PendingStore, reserve, remove, get_by_ref, mark_entry_started,
  mark_entry_failed, err_pending_removed, signal_at, new_signal,
}
use docker_in_kubernetes.Server.Pending as Pending
use docker_in_kubernetes.Server.Reply.{Reply, write_header, write_json, write_error}
use docker_in_kubernetes.Server.Summary.{DockerState, running, ContainerSummary, build_summary}
use docker_in_kubernetes.Server.Summary.Inspect.{ContainerInspect, build_inspect}

pub record Daemon {ℓ} (S : Type ℓ) : Type ℓ where
  pub pending : PendingStore
  pub registry : Registry
  pub cluster : S

-- What the handlers share.
pub record Context {ℓ} (S : Type ℓ) : Type ℓ where
  pub namespace : Text
  pub pods : PodStore S
  pub codec : Codec
  pub sha256_hex : Text → Text
  pub close_error : ℕ → Option Text
  pub listen : List ℕ → Result ℕ
  pub wait_for_ready : S → Text → Outcome {0} Unit
  pub open_forwarder : S → Text → List Mapping → Result ℕ

abbrev pub no_such_container : Text → Text
no_such_container id = text "no such container: " ++ id

abbrev pub name_in_use : Text → Text
name_in_use name = text "Conflict. The container name \"" ++ name ++ text "\" is already in use"

module _ {ℓ} {S : Type ℓ} (context : Context S) where
  abbrev pub id_of : Text → Text
  id_of name = container_id context.sha256_hex context.namespace name

  -- The end of create: the name is reserved, and given up if a live pod has it.
  unfoldable pub claim : ℕ → PendingContainer → Daemon S → Daemon S × Reply Text
  claim now entry d =
      let conflict : Reply Text = write_error 409 (name_in_use entry.docker_name) in
      let (pending, reserved) = reserve now entry entry.docker_name d.pending in
      let claimed = record d { pending = pending } in
      let created : Daemon S × Reply Text = (claimed, write_json 201 entry.id) in
      let dropped : Daemon S × Reply Text =
        (record d { pending = remove entry.id pending }, conflict) in
      if not reserved then (claimed, conflict) else elim entry.docker_name [
        | [] ↦ created
        | c ∷ cs ↦ elim (context.pods.get d.cluster entry.spec.name) [
          | done pod ↦ dropped
          | fails e ↦ created
        ]
      ]

  -- The entry that create makes of a built pod whose mappings have their host ports.
  abbrev pub new_entry : ℕ → ℕ → Text → BuildResult → List PortMapping → PendingContainer
  new_entry now signal docker_name built mappings = record {
    id = id_of built.pod_name;
    docker_name = docker_name;
    spec = write_ports_annotation context.codec mappings built.pod;
    mappings = mappings;
    created_at = now;
    signal = signal;
  }

  -- Handler create, on a body that was decoded. Its readings of the clock are one `now`.
  unfoldable pub create : ℕ → ℕ → Text → CreateRequest → Text → Daemon S → Daemon S × Reply Text
  unfolding claim
  create now signal suffix request docker_name d =
      let d' = record d {
        pending = record d.pending {
          signals = signal_at signal (λ g. new_signal) d.pending.signals;
        };
      } in
      elim request.image [
        | [] ↦ (d, write_error 400 (text "Image is required"))
        | c ∷ cs ↦
            elim (build context.codec (record {
              namespace = context.namespace;
              docker_name = docker_name;
              project = [];
              now = now;
              request = request;
              suffix = suffix;
            })) [
              | err e ↦ (d, write_error 400 e)
              | ok built ↦ elim (allocate_host_ports context.listen [] built.port_mappings) [
                | err e ↦ (d, write_error 500 e)
                | ok mappings ↦ claim now (new_entry now signal docker_name built mappings) d'
              ]
            ]
      ]

  -- ensureRunning, with its error.
  unfoldable pub ensure_running : Text → List PortMapping → Daemon S → Daemon S × Option Text
  ensure_running name mappings d =
      let opened : Daemon S × Option Text = elim (to_forwarder_mappings mappings) [
        | err e ↦ (d, some e)
        | ok [] ↦ (d, none)
        | ok (m ∷ ms) ↦ elim (context.open_forwarder d.cluster name (m ∷ ms)) [
          | err e ↦ (d, some (text "open forwarder: " ++ e))
          | ok h ↦ (record d { registry = set_handle d.registry (id_of name) h }, none)
        ]
      ] in
      elim (context.wait_for_ready d.cluster name) [
        | fails not_found ↦ (d, none)
        | fails e ↦ (d, some (error_text e))
        | done u ↦ if has d.registry (id_of name) then (d, none) else opened
      ]

  abbrev pub started_reply : Daemon S × Option Text → Daemon S × Reply Text
  started_reply (d, none) = (d, write_header 204)
  started_reply (d, some e) = (d, write_error 500 e)

  -- The branch of start for a pending container.
  unfoldable pub start_pending : PendingContainer → Daemon S → Daemon S × Reply Text
  unfolding ensure_running
  start_pending p d =
      let (cluster, out) = context.pods.create d.cluster p.spec in
      elim out [
        | fails e ↦ (
          record d {
            cluster = cluster;
            pending = remove p.id (mark_entry_failed p (error_text e) d.pending);
          },
          write_error 500 (error_text e),
        )
        | done created ↦ started_reply (
            ensure_running p.spec.name p.mappings (record d {
              cluster = cluster;
              pending = remove p.id (mark_entry_started p d.pending);
            }))
      ]

  unfoldable pub start_live : Text → Daemon S → Daemon S × Reply Text
  unfolding ensure_running
  start_live id d = elim (context.pods.find_by_id d.cluster id) [
    | fails not_found ↦ (d, write_error 404 (no_such_container id))
    | fails e ↦ (d, write_error 500 (error_text e))
    | done pod ↦ elim (load_mappings_from_pod context.codec pod) [
      | err e ↦ (d, write_error 500 e)
      | ok mappings ↦ started_reply (ensure_running pod.name mappings d)
    ]
  ]

  -- Handler start.
  unfoldable pub start : ℕ → Text → Daemon S → Daemon S × Reply Text
  unfolding start_pending start_live
  start now id d =
      let (pending, found) = get_by_ref now id d.pending in
      let d' = record d { pending = pending } in
      elim found [ some p ↦ start_pending p d' | none ↦ start_live id d' ]
