-- ===== src/Examples/Pods.antt =====
-- Pods (internal/k8s) and what is shown of them.
use docker_in_kubernetes.Prelude.{
  ℕ, zero, suc, ◌+◌, ◌*◌, ◌/◌, ◌<◌, ◌≤◌, ◌≡◌, ◌≢◌, ◌⊎◌, inl, inr, refl, none, some, Option, List,
  [], ◌∷◌, ◌++◌, Text, text, Dict, lookup, Bool, true, false, ◌||◌, All, arith, ℤ, pos, negsuc,
  Bool-cases,
}
use docker_in_kubernetes.K8s.{done, fails, not_found, is_managed, matches, find_by_id, wait_loop}
use docker_in_kubernetes.K8s.Finding.{find_by_id_sound}
use docker_in_kubernetes.K8s.Ready.{wait_loop_total}
use docker_in_kubernetes.Pod.{Pod, Phase, Status}
use docker_in_kubernetes.Podspec.Build.{CreateRequest, BuildInput, BuildResult, build, build_pod}
use docker_in_kubernetes.Podspec.Build.Named.{IsNamed, build-IsNamed}
use docker_in_kubernetes.Podspec.Ports.{PortMapping, ok, is_known}
use docker_in_kubernetes.Server.Summary.{
  created, exited, build_summary, parse_ports, unix, port_key, bindings_of, ports_bindings,
}
use docker_in_kubernetes.Server.Summary.Inspect.{build_state}
use docker_in_kubernetes.Server.Summary.Ports.{ports_bindings_last}
use docker_in_kubernetes.Server.Summary.Shown.{build-shown}
use docker_in_kubernetes.Server.Containers.{exit_code_from_pod, load_mappings_from_pod}
use docker_in_kubernetes.Server.Containers.Exit.{exit_code_evicted}
use docker_in_kubernetes.Examples.Cluster.{api, api-IsApi, web, web_pod, ready_status}
use docker_in_kubernetes.Examples.Encoding.{plain, plain-IsCodec}

abbrev pub digest : Text → Text
digest t = t

abbrev other : Text
other = b'o' ∷ []

web_found : find_by_id api digest (web_pod ∷ []) web ≡ done web_pod
unfolding find_by_id docker_in_kubernetes.Examples.Cluster.get_pod
    docker_in_kubernetes.Prelude.text_eq docker_in_kubernetes.Pod.value_of lookup text
web_found = refl

find_by_id_sound_example :
    (is_managed web_pod ≡ true) × ((web_pod.name ≡ web) ⊎ (matches digest web web_pod ≡ true))
find_by_id_sound_example =
    find_by_id_sound api digest (web_pod ∷ []) web web_pod api-IsApi web_found

other_unfound : find_by_id api digest (web_pod ∷ []) other ≡ fails not_found
unfolding find_by_id docker_in_kubernetes.Examples.Cluster.get_pod
    docker_in_kubernetes.Prelude.text_eq docker_in_kubernetes.Examples.Cluster.list_pods
    docker_in_kubernetes.Prelude.filter docker_in_kubernetes.Pod.value_of lookup text
    docker_in_kubernetes.Podspec.Identity.container_id
    docker_in_kubernetes.Podspec.Identity.short_id
other_unfound = refl

web_listed : api.list_managed (web_pod ∷ []) ≡ done (web_pod ∷ [])
unfolding is_managed docker_in_kubernetes.Examples.Cluster.list_pods
    docker_in_kubernetes.Prelude.filter docker_in_kubernetes.Prelude.text_eq
    docker_in_kubernetes.Pod.value_of lookup text
web_listed = refl

-- A cluster that stays as it is, polled every half second from the second 10 on.
abbrev polled : ℕ → List Pod
polled i = web_pod ∷ []

abbrev clock : ℕ → ℕ
clock i = 10000 + i * 500

abbrev patient : ℕ → Option Text
patient i = none

clock_runs : (i : ℕ) → 10000 + i * 500 ≤ clock i
clock_runs i = omega arith

wait_loop_total_example :
    wait_loop api polled clock patient (text "30s") 40000 (suc 61) other 0 ≢ none
wait_loop_total_example =
    wait_loop_total api polled clock patient (text "30s") 10000 500 40000 clock_runs 61 other 0
      (omega arith)

web_ready : wait_loop api polled clock patient (text "30s") 40000 1 web 0 ≡ some (done tt)
unfolding wait_loop docker_in_kubernetes.Examples.Cluster.get_pod
    docker_in_kubernetes.Prelude.text_eq docker_in_kubernetes.Pod.value_of lookup text
web_ready = refl

abbrev pub request : CreateRequest
request = record {
  image = b'r' ∷ [];
  env = (b'k' ∷ b'=' ∷ b'v' ∷ []) ∷ [];
  cmd = [];
  entrypoint = [];
  working_dir = [];
  user = [];
  labels = (b'k' ∷ [], b'v' ∷ []) ∷ [];
  exposed_ports = (b'8' ∷ b'0' ∷ []) ∷ [];
  host_config = record { port_bindings = []; memory = pos 0; nano_cpus = pos 0 };
  tty = false;
  attach_stdin = false;
  open_stdin = false;
}

abbrev input : BuildInput
input = record {
  namespace = web;
  docker_name = web;
  project = [];
  now = 3000000000;
  request = request;
  suffix = [];
}

abbrev http : PortMapping
http = record { host_port = []; container_port = 80; protocol = text "tcp" }

abbrev built : BuildResult
built = record {
  pod = build_pod plain input web (http ∷ []) none;
  pod_name = web;
  port_mappings = http ∷ [];
}

input-built : build plain input ≡ ok built
unfolding build docker_in_kubernetes.Podspec.Name.sanitize_name
    docker_in_kubernetes.Podspec.Name.collapse docker_in_kubernetes.Podspec.Name.is_alnum
    docker_in_kubernetes.Podspec.Name.to_lower
    docker_in_kubernetes.Podspec.Ports.parse_port_bindings
    docker_in_kubernetes.Podspec.Ports.bind_loop docker_in_kubernetes.Podspec.Ports.expose_loop
    docker_in_kubernetes.Podspec.Ports.parse_port_spec docker_in_kubernetes.Prelude.text_eq
    docker_in_kubernetes.Prelude.cut text docker_in_kubernetes.Prelude.parse_uint
    docker_in_kubernetes.Prelude.digits_from docker_in_kubernetes.Prelude.insert
    docker_in_kubernetes.Prelude.sort_by docker_in_kubernetes.Prelude.insert_by
input-built = refl

build-shown_example :
    (parse_ports plain built.pod ≡ built.port_mappings)
    × (load_mappings_from_pod plain built.pod ≡ ok built.port_mappings)
    × ((build_summary plain digest 4000000000 built.pod).image ≡ input.request.image)
    × ((build_summary plain digest 4000000000 built.pod).state ≡ created)
    × ((build_summary plain digest 4000000000 built.pod).status ≡ text "Created")
    × ((build_summary plain digest 4000000000 built.pod).created
        ≡ unix (input.now / 1000000000 * 1000000000))
    × ((input.request.labels ≡ [])
        ⊎ ((k : Text)
            → lookup k (build_summary plain digest 4000000000 built.pod).labels
              ≡ lookup k input.request.labels))
build-shown_example = build-shown plain plain-IsCodec input built digest 4000000000 input-built

web-named : input.docker_name ≢ []
web-named e = ground arith

tcp-known : is_known (text "tcp") ≡ true
unfolding docker_in_kubernetes.Prelude.text_eq text
tcp-known = refl

build-IsNamed_example : IsNamed 80 (text "tcp") built
build-IsNamed_example =
    build-IsNamed plain input built 80 (text "tcp") (inl web-named) tcp-known input-built

abbrev evicted_pod : Pod
evicted_pod = record web_pod {
  status = record ready_status { phase = Phase.failed; container_statuses = [] };
}

exit_code_evicted_example :
    (exit_code_from_pod evicted_pod ≡ some (pos 1))
    × ((build_state plain 20 evicted_pod).exit_code ≡ pos 0)
    × ((build_state plain 20 evicted_pod).status ≡ exited)
unfolding docker_in_kubernetes.Server.Summary.termination_of
exit_code_evicted_example = exit_code_evicted plain 20 evicted_pod refl refl

abbrev http_9 : PortMapping
http_9 = record { host_port = b'9' ∷ []; container_port = 80; protocol = text "tcp" }

abbrev http_8 : PortMapping
http_8 = record { host_port = b'8' ∷ []; container_port = 80; protocol = text "tcp" }

ports_bindings_last_example :
    lookup (port_key http_9) (ports_bindings ((http_8 ∷ []) ++ http_9 ∷ []))
    ≡ some (bindings_of http_9)
ports_bindings_last_example = ports_bindings_last (http_8 ∷ []) [] http_9 tt
