-- ===== src/Server/Summary/Inspect.antt =====
-- internal/server/summary.go: how a pod is shown by docker inspect.
use docker_in_kubernetes.Prelude.{
  ℕ, Bool, true, false, none, some, List, [], ◌∷◌, Text, text, Dict, if◌then◌else◌, leb, ◌==◌, ◌&&◌,
  ℤ, pos, neg, int64_max, parse_int, ◌+◌,
}
use docker_in_kubernetes.Pod.{Pod, value_of}
use docker_in_kubernetes.Podspec.Codec.{Codec}
use docker_in_kubernetes.Podspec.Identity.{
  container_id, annotation_env, annotation_user, annotation_memory, annotation_nano_cpus,
}
use docker_in_kubernetes.Server.Summary.{
  DockerState, running, exited, docker_state_from_phase, parse_ports, ports_bindings, pod_image,
  termination_of, creation_time, docker_name, user_labels_from_pod,
}

-- dockerapi.InspectState.
pub record InspectState : Type 0 where
  pub status : DockerState
  pub running : Bool
  pub exit_code : ℤ
  pub started_at : Text
  pub finished_at : Text

-- dockerapi.ContainerInspect, with the fields of InspectConfig, HostConfig and InspectNetworkInfo
-- that are set.
pub record ContainerInspect : Type 0 where
  pub id : Text
  pub created : Text
  pub state : InspectState
  pub image : Text
  pub name : Text
  pub hostname : Text
  pub env : List Text
  pub user : Text
  pub labels : Dict Text
  pub network_mode : Text
  pub port_bindings : Dict (List Text)
  pub memory : ℤ
  pub nano_cpus : ℤ
  pub network_ports : Dict (List Text)

unfoldable pub rfc3339 : Codec → ℕ → Text
rfc3339 codec t =
    let formatted : Text = codec.format_time_nano t in if t == 0 then [] else formatted

unfoldable pub env_from_pod : Codec → Pod → List Text
env_from_pod codec pod = elim (value_of annotation_env pod.annotations) [
  | [] ↦ []
  | c ∷ raw ↦ elim (codec.unmarshal_env (c ∷ raw)) [ some env ↦ env | none ↦ [] ]
]

only_digits : Text → Bool
only_digits [] = true
only_digits (c ∷ s) = leb b'0' c && leb c b'9' && only_digits s

-- The value that strconv.ParseInt(s, 10, 64) returns, whatever error comes with it: a number out of
-- range gives the nearest bound.
unfoldable pub parse_int_value : Text → ℤ
unfolding only_digits
parse_int_value s = elim (parse_int s) [
  | some z ↦ z
  | none ↦ elim s [
    | [] ↦ pos 0
    | c ∷ [] ↦ pos 0
    | c ∷ d ∷ t ↦
        if only_digits (d ∷ t)
        then if c == b'-'
          then neg (int64_max + 1)
          else if c == b'+'
          then pos int64_max
          else if only_digits (c ∷ [])
          then pos int64_max
          else pos 0
        else pos 0
  ]
]

unfoldable pub build_state : Codec → ℕ → Pod → InspectState
unfolding docker_state_from_phase termination_of rfc3339
build_state codec now pod =
    let state = docker_state_from_phase pod.status.phase in
    let is_running : Bool = elim state [ running ↦ true | _ ↦ false ] in
    let started_at : Text = rfc3339 codec (elim pod.status.start_time [ some t ↦ t | none ↦ 0 ]) in
    let unfinished : Text = elim state [ exited ↦ codec.format_time now | _ ↦ [] ] in
    elim (termination_of pod) [
      | some (code, finished_at) ↦ record {
        status = state;
        running = is_running;
        exit_code = code;
        started_at = started_at;
        finished_at = rfc3339 codec finished_at;
      }
      | none ↦ record {
        status = state;
        running = is_running;
        exit_code = pos 0;
        started_at = started_at;
        finished_at = unfinished;
      }
    ]

unfoldable pub build_inspect : Codec → (Text → Text) → ℕ → Pod → ContainerInspect
unfolding build_state ports_bindings parse_ports pod_image creation_time docker_name env_from_pod
    user_labels_from_pod parse_int_value
build_inspect codec sha256_hex now pod =
    let bindings = ports_bindings (parse_ports codec pod) in
    record {
      id = container_id sha256_hex pod.namespace pod.name;
      created = codec.format_time_nano (creation_time codec pod);
      state = build_state codec now pod;
      image = pod_image pod;
      name = b'/' ∷ docker_name pod;
      hostname = pod.hostname;
      env = env_from_pod codec pod;
      user = value_of annotation_user pod.annotations;
      labels = user_labels_from_pod codec pod;
      network_mode = text "default";
      port_bindings = bindings;
      memory = parse_int_value (value_of annotation_memory pod.annotations);
      nano_cpus = parse_int_value (value_of annotation_nano_cpus pod.annotations);
      network_ports = bindings;
    }
