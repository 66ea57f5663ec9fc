-- ===== src/Server/Containers.antt =====
-- internal/server/containers.go: the handlers of the containers. The daemon's state is the store of
-- pending containers, the registry of forwarders and the cluster, whose pods the handlers reach through
-- the interface PodStore. Where an error quotes the text of a library's error, that text is left out.
pub mod Requests
pub mod Exit
pub mod Handlers
pub mod Stopping
pub mod Views
pub mod Waiting
pub mod Attaching
use docker_in_kubernetes.Prelude.{
  ℕ, zero, suc, ◌+◌, ◌*◌, ◌-◌, ◌%◌, ◌^◌, Bool, true, false, not, ◌&&◌, ◌||◌, Option, none, some,
  List, [], ◌∷◌, ◌++◌, map, Text, text, Dict, lookup, insert, if◌then◌else◌, ltb, leb, ◌==◌,
  text_eq, ℤ, pos, negsuc, neg, int64_max, parse_uint, parse_int, itoa, cut,
}
use docker_in_kubernetes.Forwarder.{Mapping}
use docker_in_kubernetes.K8s.{is_phase}
use docker_in_kubernetes.Pod.{Phase, Pod, ContainerState, value_of}
use docker_in_kubernetes.Podspec.Codec.{Codec}
use docker_in_kubernetes.Podspec.Identity.{annotation_ports}
use docker_in_kubernetes.Podspec.Name.{to_lower}
use docker_in_kubernetes.Podspec.Ports.{PortMapping, Result, ok, err, ◌>>=◌, context}

-- The first terminated container's exit code.
unfoldable pub terminated_code : List ContainerState → Option ℤ
terminated_code [] = none
terminated_code (cs ∷ states) =
    let rest = terminated_code states in elim cs.terminated [ some t ↦ some t.0 | none ↦ rest ]

-- exitCodeFromPod: `none` is a container that has not exited.
unfoldable pub exit_code_from_pod : Pod → Option ℤ
unfolding terminated_code is_phase
exit_code_from_pod pod = elim (terminated_code pod.status.container_statuses) [
  | some code ↦ some code
  | none ↦
      if is_phase pod.status.phase Phase.succeeded
      then some (pos 0)
      else if is_phase pod.status.phase Phase.failed
      then some (pos 1)
      else none
]

unfoldable pub any_terminated : List ContainerState → Bool
any_terminated [] = false
any_terminated (cs ∷ states) =
    let rest = any_terminated states in elim cs.terminated [ some t ↦ true | none ↦ rest ]

unfoldable pub pod_terminated : Pod → Bool
unfolding any_terminated is_phase
pod_terminated pod =
    is_phase pod.status.phase Phase.succeeded
    || is_phase pod.status.phase Phase.failed
    || any_terminated pod.status.container_statuses

-- labelFilter; `value` is absent when the filter has no equals sign.
pub record LabelFilter : Type 0 where
  pub key : Text
  pub value : Option Text

unfoldable pub label_filter_from_value : Text → LabelFilter
label_filter_from_value v =
    let (k, val, found) = cut v b'=' in
    record { key = k; value = (if found then some val else none) }

unfoldable pub label_filters_from_values : List Text → List LabelFilter
unfolding label_filter_from_value
label_filters_from_values values = map label_filter_from_value values

-- The two shapes of the filters' JSON, decoded by a library: the list of labels, or the labels of a map.
unfoldable pub parse_label_filters :
    (Text → Option (Dict (List Text)))
    → (Text → Option (Dict (Dict Bool)))
    → Text
    → Result (List LabelFilter)
unfolding label_filters_from_values
parse_label_filters as_lists as_sets [] = ok []
parse_label_filters as_lists as_sets (c ∷ raw) = elim (as_lists (c ∷ raw)) [
  | some arr ↦ ok (
      label_filters_from_values
        (elim (lookup (text "label") arr) [ some values ↦ values | none ↦ [] ]))
  | none ↦ elim (as_sets (c ∷ raw)) [
    | some sets ↦ ok (
        label_filters_from_values
          (elim (lookup (text "label") sets) [ some set ↦ map (λ e. e.0) set | none ↦ [] ]))
    | none ↦ err (text "filters must be JSON object")
  ]
]

unfoldable pub matches_label_filters : Dict Text → List LabelFilter → Bool
matches_label_filters labels [] = true
matches_label_filters labels (f ∷ filters) =
    let rest = matches_label_filters labels filters in
    elim (lookup f.key labels) [
      | none ↦ false
      | some got ↦ elim f.value [
        | none ↦ rest
        | some value ↦ if not (text_eq got value) then false else rest
      ]
    ]

-- boolQuery, on the value of the query; strings.EqualFold on ASCII letters.
unfoldable pub bool_query : Text → Bool
bool_query v = text_eq v (text "1") || text_eq (map to_lower v) (text "true")

-- The product of an int64 with a second, which wraps.
unfoldable pub seconds : ℕ → ℤ
seconds n =
    let r : ℕ = n * 1000000000 % 2 ^ 64 in if leb r int64_max then pos r else neg (2 ^ 64 - r)

-- parseGrace, in nanoseconds.
unfoldable pub parse_grace : Text → ℤ → ℤ
unfolding seconds
parse_grace [] def = def
parse_grace (c ∷ s) def = elim (parse_int (c ∷ s)) [
  | some (pos n) ↦ seconds n
  | some (negsuc n) ↦ def
  | none ↦ def
]

-- The loop of allocateHostPorts: the listeners stay open until every mapping has its port, so a port
-- that was taken is not given again. `listen taken` is the port of a new listener while the ports
-- `taken` are held, or an error.
unfoldable pub allocate_host_ports :
    (List ℕ → Result ℕ) → List ℕ → List PortMapping → Result (List PortMapping)
allocate_host_ports listen taken [] = ok []
allocate_host_ports listen taken (m ∷ mappings) =
    if not (text_eq m.host_port []) && not (text_eq m.host_port (text "0"))
    then allocate_host_ports listen taken mappings >>= (λ rest. ok (m ∷ rest))
    else do
      port ←
          context
            (text "allocate host port for "
              ++ itoa m.container_port
              ++ b'/' ∷ m.protocol
              ++ text ": ")
            (listen taken)
      rest ← allocate_host_ports listen (port ∷ taken) mappings
      ok (record m { host_port = itoa port } ∷ rest)

unfoldable pub write_ports_annotation : Codec → List PortMapping → Pod → Pod
write_ports_annotation codec [] pod = pod
write_ports_annotation codec (m ∷ mappings) pod = record pod {
  annotations = insert annotation_ports (codec.marshal_ports (m ∷ mappings)) pod.annotations;
}

unfoldable pub load_mappings_from_pod : Codec → Pod → Result (List PortMapping)
load_mappings_from_pod codec pod = elim (value_of annotation_ports pod.annotations) [
  | [] ↦ ok []
  | c ∷ raw ↦ elim (codec.unmarshal_ports (c ∷ raw)) [
    | some ports ↦ ok ports
    | none ↦ err (text "decode ports annotation")
  ]
]

unfoldable pub to_forwarder_mappings : List PortMapping → Result (List Mapping)
to_forwarder_mappings [] = ok []
to_forwarder_mappings (p ∷ ports) =
    let rest = to_forwarder_mappings ports in
    elim p.host_port [
      | [] ↦ rest
      | c ∷ cs ↦ elim (parse_uint 65535 (c ∷ cs)) [
        | none ↦ err (text "invalid host port \"" ++ c ∷ cs ++ text "\"")
        | some hp ↦
            rest
            >>= (λ out. ok (record { host_port = hp; container_port = p.container_port } ∷ out))
      ]
    ]
