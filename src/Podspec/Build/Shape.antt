-- ===== src/Podspec/Build/Shape.antt =====
-- internal/podspec/spec.go: the pod of a Build that succeeds.
use docker_in_kubernetes.Prelude.{Option, ◌≡◌, inl, inr, arith, text}
use docker_in_kubernetes.Pod.{SecurityContext}
use docker_in_kubernetes.Podspec.Codec.{Codec}
use docker_in_kubernetes.Podspec.Build.{
  BuildInput, BuildResult, build, build_pod, pod_name_of, security_context_of, require,
}
use docker_in_kubernetes.Podspec.Ports.{Result-cases, ok, parse_port_bindings}

-- A Build that succeeds had a namespace and an image, and its pod is built from the ports parsed.
pub build-shape :
    (codec : Codec) (input : BuildInput) (r : BuildResult)
    → build codec input ≡ ok r
    → (sc : Option SecurityContext) × (r.pod ≡ build_pod codec input r.pod_name r.port_mappings sc)
      × (pod_name_of input ≡ ok r.pod_name)
      × (parse_port_bindings input.request.host_config.port_bindings input.request.exposed_ports
          ≡ ok r.port_mappings)
      × (security_context_of input.request.user ≡ ok sc)
unfolding build
build-shape codec input r h = elim (Result-cases (require (text "namespace") input.namespace)) [
  | inr (e, a) ↦ ground (arith, a)
  | inl (n, a) ↦ elim (Result-cases (require (text "image") input.request.image)) [
    | inr (e, b) ↦ ground (arith, a, b)
    | inl (i, b) ↦ elim (Result-cases (pod_name_of input)) [
      | inr (e, c) ↦ ground (arith, a, b, c)
      | inl (name, c) ↦
          elim (Result-cases (
            parse_port_bindings input.request.host_config.port_bindings
              input.request.exposed_ports)) [
                | inr (e, d) ↦ ground (arith, a, b, c, d)
                | inl (ports, d) ↦ elim (Result-cases (security_context_of input.request.user)) [
                  | inr (e, f) ↦ ground (arith, a, b, c, d, f)
                  | inl (sc, f) ↦
                      let same : r ≡ record {
                        pod = build_pod codec input name ports sc;
                        pod_name = name;
                        port_mappings = ports;
                      } =
                        ground (arith, a, b, c, d, f) in
                      (
                        sc,
                        ground (arith, same),
                        ground (arith, c, same),
                        ground (arith, d, same),
                        f,
                      )
                ]
              ]
    ]
  ]
]
