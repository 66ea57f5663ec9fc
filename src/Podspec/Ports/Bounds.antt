-- ===== src/Podspec/Ports/Bounds.antt =====
-- internal/podspec/spec.go: the ports that parsePortBindings returns.
use mathlib.Core.Path.{subst}
use docker_in_kubernetes.Prelude.{
  ℕ, ◌≡◌, ◌≤◌, ◌<◌, inl, inr, true, List, [], ◌∷◌, ◌++◌, map, Text, arith, All, All-append, sort_by,
  All-sort_by, Bool-cases,
}
use docker_in_kubernetes.Podspec.Ports.{
  PortMapping, Result-cases, ok, is_known, is_bound, parse_port_spec, mappings_of, bind_loop,
  expose_loop, mapping_less, parse_port_bindings,
}
use docker_in_kubernetes.Podspec.Ports.Spec.{parse_port_spec_sound}

-- A port that Kubernetes takes.
abbrev pub IsPort : ℕ → Text → Type 0
IsPort n proto = (0 < n) × (n ≤ 65535) × (is_known proto ≡ true)

abbrev pub IsMapping : PortMapping → Type 0
IsMapping m = IsPort m.container_port m.protocol

hosts-IsMapping :
    (n : ℕ) (proto : Text) (hosts : List Text)
    → IsPort n proto
    → All IsMapping
        (map (λ b. record { host_port = b; container_port = n; protocol = proto }) hosts)
hosts-IsMapping n proto [] h = tt
hosts-IsMapping n proto (b ∷ hosts) h = (h, hosts-IsMapping n proto hosts h)

mappings_of-IsMapping :
    (n : ℕ) (proto : Text) (hosts : List Text)
    → IsPort n proto
    → All IsMapping (mappings_of n proto hosts)
unfolding mappings_of
mappings_of-IsMapping n proto [] h = (h, tt)
mappings_of-IsMapping n proto (b ∷ hosts) h = hosts-IsMapping n proto (b ∷ hosts) h

bind_loop-IsMapping :
    (bindings : List (Text × List Text)) (bound : List (ℕ × Text)) (ms : List PortMapping)
    → bind_loop bindings ≡ ok (bound, ms)
    → All IsMapping ms
unfolding bind_loop
bind_loop-IsMapping [] bound ms h =
    let same : [] ≡ ms = ground (arith, h) in subst (All IsMapping) same tt
bind_loop-IsMapping ((spec, binds) ∷ bindings) bound ms h =
    elim (Result-cases (parse_port_spec spec)) [
      | inr (e, p) ↦ ground (arith, p)
      | inl ((n, proto), p) ↦ elim (Result-cases (bind_loop bindings)) [
        | inr (e, l) ↦ ground (arith, p, l)
        | inl ((keys, rest), l) ↦
            let same : mappings_of n proto binds ++ rest ≡ ms = ground (arith, p, l, h) in
            let ports = parse_port_spec_sound spec n proto p in
            subst (All IsMapping) same (
              All-append IsMapping (mappings_of n proto binds) rest
                (mappings_of-IsMapping n proto binds ports)
                (bind_loop-IsMapping bindings keys rest l))
      ]
    ]

expose_loop-IsMapping :
    (bound : List (ℕ × Text)) (exposed : List Text) (ms : List PortMapping)
    → expose_loop bound exposed ≡ ok ms
    → All IsMapping ms
unfolding expose_loop
expose_loop-IsMapping bound [] ms h =
    let same : [] ≡ ms = ground (arith, h) in subst (All IsMapping) same tt
expose_loop-IsMapping bound (spec ∷ exposed) ms h = elim (Result-cases (parse_port_spec spec)) [
  | inr (e, p) ↦ ground (arith, p)
  | inl ((n, proto), p) ↦ elim (Result-cases (expose_loop bound exposed)) [
    | inr (e, l) ↦ ground (arith, p, l)
    | inl (rest, l) ↦
        let later = expose_loop-IsMapping bound exposed rest l in
        let ports = parse_port_spec_sound spec n proto p in
        elim (Bool-cases (is_bound (n, proto) bound)) [
          | inl known ↦
              let same : rest ≡ ms = ground (arith, p, l, known, h) in
              subst (All IsMapping) same later
          | inr fresh ↦
              let added : PortMapping = record {
                host_port = [];
                container_port = n;
                protocol = proto;
              } in
              let same : added ∷ rest ≡ ms = ground (arith, p, l, fresh, h) in
              subst (All IsMapping) same (ports, later)
        ]
  ]
]

-- Every mapping that is parsed has a port from 1 to 65535 and a protocol that is supported.
pub parse_port_bindings-IsMapping :
    (bindings : List (Text × List Text)) (exposed : List Text) (ms : List PortMapping)
    → parse_port_bindings bindings exposed ≡ ok ms
    → All IsMapping ms
unfolding parse_port_bindings
parse_port_bindings-IsMapping bindings exposed ms h = elim (Result-cases (bind_loop bindings)) [
  | inr (e, b) ↦ ground (arith, b)
  | inl ((bound, first), b) ↦ elim (Result-cases (expose_loop bound exposed)) [
    | inr (e, x) ↦ ground (arith, b, x)
    | inl (extra, x) ↦
        let same : sort_by mapping_less (first ++ extra) ≡ ms = ground (arith, b, x, h) in
        subst (All IsMapping) same (
          All-sort_by IsMapping mapping_less (first ++ extra) (
            All-append IsMapping first extra (bind_loop-IsMapping bindings bound first b)
              (expose_loop-IsMapping bound exposed extra x)))
  ]
]
