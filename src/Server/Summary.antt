-- ===== src/Server/Summary.antt =====
-- internal/server/summary.go: how a pod is shown by docker ps. Instants are numbers of nanoseconds
-- since Go's zero time.
pub mod Inspect
pub mod Shown
pub mod Ports
use docker_in_kubernetes.Prelude.{
  ℕ, zero, suc, ◌+◌, ◌-◌, ◌*◌, ◌/◌, ◌^◌, Bool, true, false, not, ◌&&◌, ◌||◌, Option, none, some,
  List, [], ◌∷◌, ◌++◌, map, Text, text, Dict, lookup, insert, if◌then◌else◌, ltb, leb, ◌==◌, ℤ, pos,
  negsuc, neg, int64_max, format_int, itoa, parse_uint,
}
use docker_in_kubernetes.Pod.{Phase, Pod, Container, ContainerState, value_of}
use docker_in_kubernetes.Podspec.Codec.{Codec}
use docker_in_kubernetes.Podspec.Identity.{
  container_id, annotation_created_at, annotation_image, annotation_ports, annotation_docker_name,
  annotation_labels,
}
use docker_in_kubernetes.Podspec.Ports.{PortMapping}

-- The states, and their texts.
pub data DockerState : Type 0 where
  running created exited dead : DockerState

unfoldable pub state_text : DockerState → Text
state_text running = text "running"
state_text created = text "created"
state_text exited = text "exited"
state_text dead = text "dead"

unfoldable pub docker_state_from_phase : Phase → DockerState
docker_state_from_phase Phase.running = running
docker_state_from_phase Phase.pending = created
docker_state_from_phase Phase.succeeded = exited
docker_state_from_phase Phase.failed = exited
docker_state_from_phase Phase.unknown = dead
docker_state_from_phase (Phase.other t) = created

unfoldable pub pod_image : Pod → Text
pod_image pod = elim (value_of annotation_image pod.annotations) [
  | c ∷ img ↦ c ∷ img
  | [] ↦ elim pod.containers [ container ∷ rest ↦ container.image | [] ↦ [] ]
]

unfoldable pub docker_name : Pod → Text
docker_name pod = elim (value_of annotation_docker_name pod.annotations) [
  | c ∷ n ↦ c ∷ n
  | [] ↦ pod.name
]

unfoldable pub creation_time : Codec → Pod → ℕ
creation_time codec pod =
    let recorded : ℕ = elim (value_of annotation_created_at pod.annotations) [
      | [] ↦ 0
      | c ∷ s ↦ elim (codec.parse_time (c ∷ s)) [ some t ↦ t | none ↦ 0 ]
    ] in
    if not (pod.creation_timestamp == 0) then pod.creation_timestamp else recorded

-- The exit code and the instant of the end.
unfoldable pub termination_in : List ContainerState → Option (ℤ × ℕ)
termination_in [] = none
termination_in (cs ∷ states) =
    let rest = termination_in states in elim cs.terminated [ some t ↦ some t | none ↦ rest ]

unfoldable pub termination_of : Pod → Option (ℤ × ℕ)
unfolding termination_in
termination_of pod = termination_in pod.status.container_statuses

unfoldable pub user_labels_from_pod : Codec → Pod → Dict Text
user_labels_from_pod codec pod = elim (value_of annotation_labels pod.annotations) [
  | [] ↦ pod.labels
  | c ∷ raw ↦ elim (codec.unmarshal_labels (c ∷ raw)) [ some user ↦ user | none ↦ pod.labels ]
]

-- strings.Join with a space.
unfoldable pub join : List Text → Text
join [] = []
join (w ∷ []) = w
join (w ∷ v ∷ ws) = w ++ b' ' ∷ join (v ∷ ws)

unfoldable pub summary_command : Pod → Text
unfolding join
summary_command pod = elim pod.containers [ [] ↦ [] | c ∷ cs ↦ join (c.command ++ c.args) ]

unfoldable pub parse_ports : Codec → Pod → List PortMapping
parse_ports codec pod = elim (value_of annotation_ports pod.annotations) [
  | [] ↦ []
  | c ∷ raw ↦ elim (codec.unmarshal_ports (c ∷ raw)) [ some mapped ↦ mapped | none ↦ [] ]
]

-- dockerapi.Port.
pub record Port : Type 0 where
  pub ip : Text
  pub private_port : ℕ
  pub public_port : ℕ
  pub type : Text

unfoldable pub summary_port : PortMapping → Port
summary_port m =
    let private : Port = record {
      ip = [];
      private_port = m.container_port;
      public_port = 0;
      type = m.protocol;
    } in
    elim m.host_port [
      | [] ↦ private
      | c ∷ cs ↦ elim (parse_uint 65535 (c ∷ cs)) [
        | some n ↦ record private { public_port = n; ip = text "127.0.0.1" }
        | none ↦ private
      ]
    ]

unfoldable pub summary_ports : List PortMapping → List Port
unfolding summary_port
summary_ports mappings = map summary_port mappings

unfoldable pub port_key : PortMapping → Text
port_key m = itoa m.container_port ++ b'/' ∷ m.protocol

unfoldable pub bindings_of : PortMapping → List Text
bindings_of m = elim m.host_port [ [] ↦ [] | c ∷ cs ↦ (c ∷ cs) ∷ [] ]

-- The loop of portsBindings.
unfoldable pub bindings_loop : Dict (List Text) → List PortMapping → Dict (List Text)
unfolding port_key bindings_of
bindings_loop out [] = out
bindings_loop out (m ∷ mappings) = bindings_loop (insert (port_key m) (bindings_of m) out) mappings

unfoldable pub ports_bindings : List PortMapping → Dict (List Text)
unfolding bindings_loop
ports_bindings mappings = bindings_loop [] mappings

-- The duration from `t` to `now`, which saturates at the bounds of int64.
unfoldable pub since : ℕ → ℕ → ℤ
since now t =
    let forward : ℕ = if leb (now - t) int64_max then now - t else int64_max in
    let backward : ℕ = if leb (t - now) int64_max then t - now else int64_max + 1 in
    if leb t now then pos forward else neg backward

unfoldable pub human_duration : ℤ → Text
human_duration (negsuc n) = text "Less than a second"
human_duration (pos d) =
    let s : ℕ = d / 1000000000 in
    if ltb s 60
    then if leb s 1 then text "Less than a second" else itoa s ++ text " seconds"
    else if ltb s 3600
    then itoa (s / 60) ++ text " minutes"
    else itoa (s / 3600) ++ text " hours"

unfoldable pub exited_status : Option (ℤ × ℕ) → ℕ → Text
unfolding human_duration since
exited_status none now = text "Exited (0)"
exited_status (some (code, finished_at)) now =
    let ago : Text = text " " ++ human_duration (since now finished_at) ++ text " ago" in
    text "Exited (" ++ format_int code ++ text ")" ++ (if finished_at == 0 then [] else ago)

unfoldable pub status : DockerState → ℕ → Option (ℤ × ℕ) → ℕ → Text
unfolding exited_status human_duration since
status running created_at term now =
    let up : Text = text "Up " ++ human_duration (since now created_at) in
    if created_at == 0 then text "Up" else up
status exited created_at term now = exited_status term now
status created created_at term now = text "Created"
status dead created_at term now = text "Dead"

-- time.Unix: the seconds since 1970.
unfoldable pub unix : ℕ → ℤ
unix t =
    let s : ℕ = t / 1000000000 in
    if leb 62135596800 s then pos (s - 62135596800) else neg (62135596800 - s)

-- dockerapi.ContainerSummary.
pub record ContainerSummary : Type 0 where
  pub id : Text
  pub names : List Text
  pub image : Text
  pub image_id : Text
  pub command : Text
  pub created : ℤ
  pub ports : List Port
  pub labels : Dict Text
  pub state : DockerState
  pub status : Text
  pub network_mode : Text

unfoldable pub build_summary : Codec → (Text → Text) → ℕ → Pod → ContainerSummary
unfolding docker_state_from_phase creation_time termination_of parse_ports docker_name pod_image
    summary_command unix summary_ports user_labels_from_pod status
build_summary codec sha256_hex now pod =
    let state = docker_state_from_phase pod.status.phase in
    let created_at = creation_time codec pod in
    record {
      id = container_id sha256_hex pod.namespace pod.name;
      names = (b'/' ∷ docker_name pod) ∷ [];
      image = pod_image pod;
      image_id = [];
      command = summary_command pod;
      created = unix created_at;
      ports = summary_ports (parse_ports codec pod);
      labels = user_labels_from_pod codec pod;
      state = state;
      status = status state created_at (termination_of pod) now;
      network_mode = text "default";
    }
