-- ===== src/Server/Router/Info.antt =====
-- internal/server/server.go and info.go: the constant handlers, and what the request log records. The
-- Go version, the architecture and the number of CPUs are parameters.
use docker_in_kubernetes.Prelude.{
  ℕ, ◌≤◌, Option, none, some, List, [], ◌∷◌, ◌++◌, Text, text, arith, inl, inr, length,
}
use docker_in_kubernetes.K8s.{PodStore, Outcome-cases}
use docker_in_kubernetes.Pod.{Pod}
use docker_in_kubernetes.Server.Reply.{Reply, write_json}
use docker_in_kubernetes.Server.Router.{running_in, container_counts}
use docker_in_kubernetes.Server.Router.Routes.{Method}
use docker_in_kubernetes.Server.Streams.{api_version}

abbrev pub min_api_version : Text
min_api_version = text "1.24"

-- setDockerHeaders.
abbrev pub docker_headers : List (Text × Text)
docker_headers =
    (text "Api-Version", api_version)
    ∷ (text "Ostype", text "linux")
    ∷ (text "Server", text "docker-in-kubernetes")
    ∷ []

-- A reply with its headers and the bytes of its body.
pub record RawReply : Type 0 where
  pub status : ℕ
  pub headers : List (Text × Text)
  pub body : Text

unfoldable pub handle_ping : Method → RawReply
handle_ping m = record {
  status = 200;
  headers =
      docker_headers
      ++ (text "Content-Type", text "text/plain; charset=utf-8")
        ∷ (text "Content-Length", text "2")
        ∷ [];
  body = elim m [
    | Method.head ↦ []
    | Method.get ↦ text "OK"
    | Method.post ↦ text "OK"
    | Method.delete ↦ text "OK"
    | Method.other t ↦ text "OK"
  ];
}

pub record VersionResponse : Type 0 where
  pub version : Text
  pub api_version : Text
  pub min_api_version : Text
  pub git_commit : Text
  pub go_version : Text
  pub os : Text
  pub arch : Text
  pub build_time : Text

abbrev pub handle_version : Text → Text → Text → Text → Text → Reply VersionResponse
handle_version daemon_version git_commit build_time go_version arch = write_json 200 (record {
  version = daemon_version;
  api_version = text "1.43";
  min_api_version = min_api_version;
  git_commit = git_commit;
  go_version = go_version;
  os = text "linux";
  arch = arch;
  build_time = build_time;
})

pub record InfoResponse : Type 0 where
  pub id : Text
  pub name : Text
  pub server_version : Text
  pub operating_system : Text
  pub os_type : Text
  pub architecture : Text
  pub ncpu : ℕ
  pub driver : Text
  pub containers : ℕ
  pub containers_running : ℕ

unfoldable pub handle_info {ℓ} :
    {S : Type ℓ} → Text → Text → ℕ → Option (PodStore S) → S → Reply InfoResponse
unfolding container_counts
handle_info daemon_version arch ncpu pods s =
    let (total, running) = container_counts pods s in
    write_json 200 (record {
      id = text "DIK1:DOCKER:IN:KUBERNETES";
      name = text "docker-in-kubernetes";
      server_version = daemon_version;
      operating_system = text "kubernetes";
      os_type = text "linux";
      architecture = arch;
      ncpu = ncpu;
      driver = text "kubernetes";
      containers = total;
      containers_running = running;
    })

-- The status that logRequests logs, by the codes that the handler passed to WriteHeader: statusRecorder
-- keeps the last, and begins with 200.
unfoldable pub recorded_status : ℕ → List ℕ → ℕ
recorded_status status [] = status
recorded_status status (code ∷ codes) = recorded_status code codes

abbrev pub logged_status : List ℕ → ℕ
logged_status codes = recorded_status 200 codes

running_in-length : (pods : List Pod) → running_in pods ≤ length pods
unfolding running_in
running_in-length [] = omega arith
running_in-length (p ∷ pods) = ground (arith, running_in-length pods)

-- docker info never shows more running containers than containers.
pub container_counts_le :
    {S : Type 0} (pods : Option (PodStore S)) (s : S)
    → (container_counts pods s).1 ≤ (container_counts pods s).0
unfolding container_counts
container_counts_le none s = omega arith
container_counts_le (some pods) s = elim (Outcome-cases (pods.list s)) [
  | inl (found, e) ↦ ground (arith, e, running_in-length found)
  | inr (x, e) ↦ ground (arith, e)
]
