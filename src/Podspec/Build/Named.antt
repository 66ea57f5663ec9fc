-- ===== src/Podspec/Build/Named.antt =====
-- internal/podspec/spec.go: the names and the ports of the pods that Build makes.
use mathlib.Core.Path.{subst}
use docker_in_kubernetes.Prelude.{
  ℕ, ◌≡◌, ◌≢◌, refl, sym, ap, ◌∙◌, ◌≤◌, inl, inr, ◌⊎◌, true, Option, List, [], ◌∷◌, Text, text,
  arith, All, All-imp, lookup, text_eq, length, Option-cases, Text-cases, if◌then◌else◌,
}
use docker_in_kubernetes.K8s.{is_managed}
use docker_in_kubernetes.Pod.{Pod, Container, value_of, SecurityContext}
use docker_in_kubernetes.Podspec.Codec.{Codec}
use docker_in_kubernetes.Podspec.Name.{generated_name, generated_stem, sanitize_name, is_alnum}
use docker_in_kubernetes.Podspec.Name.Trim.{IsLabel}
use docker_in_kubernetes.Podspec.Name.Sane.{sanitize_name-IsLabel}
use docker_in_kubernetes.Podspec.Name.Generated.{generated_name-IsLabel}
use docker_in_kubernetes.Podspec.Ports.{PortMapping, ok, is_known, is_bound}
use docker_in_kubernetes.Podspec.Ports.Bounds.{IsMapping, parse_port_bindings-IsMapping}
use docker_in_kubernetes.Podspec.Ports.Dedup.{occurrences, occurrences-dedup, keys}
use docker_in_kubernetes.Podspec.Build.{
  BuildInput, BuildResult, build, build_pod, build_container, pod_name_of,
}
use docker_in_kubernetes.Podspec.Build.Shape.{build-shape}

-- There is a --name; or the suffix that is drawn is six letters or digits, and the image gives a short stem.
abbrev pub IsInput : BuildInput → Type 0
IsInput input =
    (input.docker_name ≢ [])
    ⊎ ((length input.suffix ≡ 6)
        × All (λ c. is_alnum c ≡ true) input.suffix
        × (length (generated_stem input.request.image) ≤ 56))

pod_name_of-IsLabel :
    (input : BuildInput) (name : Text) → IsInput input → pod_name_of input ≡ ok name → IsLabel name
unfolding pod_name_of
pod_name_of-IsLabel input name h e = elim (Text-cases input.docker_name) [
  | inl unnamed ↦ elim h [
    | inl named ↦ absurd (named unnamed)
    | inr (six, drawn, stem) ↦
        let same : generated_name input.request.image input.suffix ≡ name =
          ground (arith, unnamed, e) in
        subst IsLabel same
          (generated_name-IsLabel input.request.image input.suffix stem six drawn).1
  ]
  | inr (c, cs, named) ↦ elim (Option-cases (sanitize_name input.suffix (c ∷ cs))) [
    | inl bad ↦ ground (arith, named, bad)
    | inr (out, good) ↦
        let same : out ≡ name = ground (arith, named, good, e) in
        subst IsLabel same (sanitize_name-IsLabel input.suffix (c ∷ cs) out (λ x. cc) good)
  ]
]

-- A pod whose name is a label by RFC 1123, whose one container has that name, and in which each port and
-- protocol of the mappings, all of them valid, stands in the container's ports once, and no other port.
-- It has the label that marks the daemon's own pods.
pub record IsNamed (n : ℕ) (proto : Text) (r : BuildResult) : Type 0 where
  pub label : IsLabel r.pod.name
  pub managed : is_managed r.pod ≡ true
  pub container : Container
  pub only : r.pod.containers ≡ container ∷ []
  pub named : container.name ≡ r.pod.name
  pub mappings : All IsMapping r.port_mappings
  pub once :
      occurrences n proto container.ports
      ≡ (if is_bound (n, proto) (keys r.port_mappings) then 1 else 0)

known-IsMapping :
    (ms : List PortMapping) → All IsMapping ms → All (λ m. is_known m.protocol ≡ true) ms
known-IsMapping ms h = All-imp (λ (m : PortMapping) (v : IsMapping m). v.2) ms h

build_pod-managed :
    (codec : Codec) (input : BuildInput) (name : Text) (ports : List PortMapping)
    (sc : Option SecurityContext)
    → is_managed (build_pod codec input name ports sc) ≡ true
unfolding is_managed build_pod value_of lookup text_eq text
build_pod-managed codec input name ports sc = refl

-- The name of every pod that Build returns is a label by RFC 1123, which its one container shares; the pod
-- is marked as managed; the mappings that are returned are ports from 1 to 65535 with a known
-- protocol; and the container declares each of them once, and no other port with a known protocol. There
-- is a --name, or the random suffix is six letters or digits and the stem of the image's name has at
-- most 56 characters.
pub build-IsNamed :
    (codec : Codec) (input : BuildInput) (r : BuildResult) (n : ℕ) (proto : Text)
    → IsInput input
    → is_known proto ≡ true
    → build codec input ≡ ok r
    → IsNamed n proto r
unfolding build_pod build_container
build-IsNamed codec input r n proto h known e =
    let (sc, pod, name, ports, user) = build-shape codec input r e in
    let mappings : All IsMapping r.port_mappings =
      parse_port_bindings-IsMapping input.request.host_config.port_bindings
        input.request.exposed_ports r.port_mappings ports in
    let label : IsLabel r.pod_name = pod_name_of-IsLabel input r.pod_name h name in
    record {
      label = subst IsLabel (sym (ap (λ (p : Pod). p.name) pod)) label;
      managed = ap is_managed pod ∙ build_pod-managed codec input r.pod_name r.port_mappings sc;
      container = build_container input r.pod_name r.port_mappings sc;
      only = ap (λ (p : Pod). p.containers) pod;
      named = sym (ap (λ (p : Pod). p.name) pod);
      mappings = mappings;
      once =
          occurrences-dedup n proto r.port_mappings known
            (known-IsMapping r.port_mappings mappings);
    }
