-- ===== src/Podspec/Build.antt =====
-- internal/podspec/spec.go: Build, from a create request to a pod.
pub mod Recorded
pub mod Shape
pub mod Named
use docker_in_kubernetes.Prelude.{
  ℕ, zero, suc, Bool, true, false, ◌||◌, Option, none, some, List, [], ◌∷◌, ◌++◌, map, Text, text,
  Dict, insert, if◌then◌else◌, cut, ℤ, pos, format_int,
}
use docker_in_kubernetes.Pod.{Phase, Container, Status, Pod, SecurityContext}
use docker_in_kubernetes.Podspec.Codec.{Codec}
use docker_in_kubernetes.Podspec.Identity.{
  label_managed, label_container_name, label_project, annotation_created_at, annotation_image,
  annotation_ports, annotation_env, annotation_docker_name, annotation_labels, annotation_user,
  annotation_memory, annotation_nano_cpus, default_project,
}
use docker_in_kubernetes.Podspec.Name.{sanitize_name, generated_name}
use docker_in_kubernetes.Podspec.Ports.{
  Result, ok, err, ◌>>=◌, PortMapping, parse_port_bindings, dedup_container_ports,
}
use docker_in_kubernetes.Podspec.User.{build_security_context, build_resources, positive}

-- dockerapi.HostConfig: of each port binding the host port.
pub record HostConfig : Type 0 where
  pub port_bindings : List (Text × List Text)
  pub memory : ℤ
  pub nano_cpus : ℤ

-- dockerapi.CreateRequest.
pub record CreateRequest : Type 0 where
  pub image : Text
  pub env : List Text
  pub cmd : List Text
  pub entrypoint : List Text
  pub working_dir : Text
  pub user : Text
  pub labels : Dict Text
  pub exposed_ports : List Text
  pub host_config : HostConfig
  pub tty : Bool
  pub attach_stdin : Bool
  pub open_stdin : Bool

-- BuildInput. `suffix` holds the six random hex digits that a name may take.
pub record BuildInput : Type 0 where
  pub namespace : Text
  pub docker_name : Text
  pub project : Text
  pub now : ℕ
  pub request : CreateRequest
  pub suffix : Text

pub record BuildResult : Type 0 where
  pub pod : Pod
  pub pod_name : Text
  pub port_mappings : List PortMapping

-- One `KEY=value` of the environment.
abbrev pub env_var : Text → Text × Text
env_var e = let (k, v, found) = cut e b'=' in (k, v)

unfoldable pub pod_name_of : BuildInput → Result Text
pod_name_of input = elim input.docker_name [
  | [] ↦ ok (generated_name input.request.image input.suffix)
  | c ∷ cs ↦ elim (sanitize_name input.suffix (c ∷ cs)) [
    | some name ↦ ok name
    | none ↦
        err (text "name \"" ++ (c ∷ cs) ++ text "\" has no valid characters after sanitization")
  ]
]

-- The writes that buildAnnotations makes under a condition on the request.
unfoldable pub put_list {ℓ} : {A : Type ℓ} → (List A → Text) → Text → List A → Dict Text → Dict Text
put_list marshal key [] out = out
put_list marshal key (a ∷ rest) out = insert key (marshal (a ∷ rest)) out

unfoldable pub put_text : Text → Text → Dict Text → Dict Text
put_text key [] out = out
put_text key (c ∷ cs) out = insert key (c ∷ cs) out

unfoldable pub put_positive : Text → ℤ → Dict Text → Dict Text
put_positive key z out = elim (positive z) [
  | none ↦ out
  | some n ↦ insert key (format_int (pos n)) out
]

unfoldable pub build_annotations : Codec → BuildInput → List PortMapping → Dict Text
unfolding put_list put_text put_positive
build_annotations codec input ports =
    let req = input.request in
    let created : Dict Text = insert annotation_docker_name input.docker_name (
      insert annotation_image req.image
        (insert annotation_created_at (codec.format_time input.now) [])) in
    put_positive annotation_nano_cpus req.host_config.nano_cpus (
      put_positive annotation_memory req.host_config.memory (
        put_text annotation_user req.user (
          put_list codec.marshal_labels annotation_labels req.labels (
            put_list codec.marshal_env annotation_env req.env
              (put_list codec.marshal_ports annotation_ports ports created)))))

unfoldable pub security_context_of : Text → Result (Option SecurityContext)
security_context_of [] = ok none
security_context_of (c ∷ cs) = build_security_context (c ∷ cs) >>= (λ sc. ok (some sc))

-- The status of a pod that the API server does not have yet.
abbrev pub new_status : Status
new_status = record {
  phase = Phase.other [];
  start_time = none;
  container_statuses = [];
  conditions = [];
  reason = [];
  pod_ip = [];
}

unfoldable pub build_container :
    BuildInput → Text → List PortMapping → Option SecurityContext → Container
build_container input pod_name ports sc =
    let req = input.request in
    record {
      name = pod_name;
      image = req.image;
      env = map env_var req.env;
      ports = dedup_container_ports ports;
      command = req.entrypoint;
      args = req.cmd;
      stdin = req.open_stdin || req.attach_stdin;
      stdin_once = req.open_stdin || req.attach_stdin;
      tty = req.tty;
      working_dir = req.working_dir;
      resources = build_resources req.host_config.memory req.host_config.nano_cpus;
      security_context = sc;
    }

unfoldable pub build_pod :
    Codec → BuildInput → Text → List PortMapping → Option SecurityContext → Pod
unfolding build_container build_annotations
build_pod codec input pod_name ports sc =
    let project : Text = elim input.project [ [] ↦ default_project | c ∷ cs ↦ c ∷ cs ] in
    record {
      name = pod_name;
      namespace = input.namespace;
      labels =
          (label_managed, text "true")
          ∷ (label_container_name, pod_name)
          ∷ (label_project, project)
          ∷ [];
      annotations = build_annotations codec input ports;
      creation_timestamp = 0;
      hostname = [];
      containers = build_container input pod_name ports sc ∷ [];
      status = new_status;
    }

unfoldable pub require : Text → Text → Result Text
require what [] = err (what ++ text " is required")
require what (c ∷ cs) = ok (c ∷ cs)

-- Build. The caller passes an instant that is not the zero time.
unfoldable pub build : Codec → BuildInput → Result BuildResult
unfolding require pod_name_of security_context_of build_pod
build codec input = do
  namespace ← require (text "namespace") input.namespace
  image ← require (text "image") input.request.image
  pod_name ← pod_name_of input
  ports ← parse_port_bindings input.request.host_config.port_bindings input.request.exposed_ports
  sc ← security_context_of input.request.user
  ok (record {
    pod = build_pod codec input pod_name ports sc;
    pod_name = pod_name;
    port_mappings = ports;
  })
