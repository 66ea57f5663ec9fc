-- ===== src/Podspec/Ports/Dedup.antt =====
-- The ports of the container in the pod spec (dedupContainerPorts of internal/podspec/spec.go).
use mathlib.Core.Path.{ap₂}
use docker_in_kubernetes.Prelude.{
  map, ◌+◌, ◌∙◌, ℕ, ◌≡◌, refl, Bool, true, false, ◌&&◌, List, [], ◌∷◌, Text, text, arith, text_eq,
  text_eq_iff, if◌then◌else◌, ◌==◌, All,
}
use docker_in_kubernetes.Podspec.Ports.{
  PortMapping, Protocol, tcp, udp, sctp, protocol_from_string, ContainerPort, is_bound, is_known,
  dedup_loop, dedup_container_ports,
}

abbrev protocol_eq : Protocol → Protocol → Bool
protocol_eq tcp tcp = true
protocol_eq udp udp = true
protocol_eq sctp sctp = true
protocol_eq _ _ = false

literals :
    (text_eq (text "tcp") (text "udp") ≡ false)
    × (text_eq (text "tcp") (text "sctp") ≡ false)
    × (text_eq (text "udp") (text "sctp") ≡ false)
    × (text_eq (text "sctp") (text "udp") ≡ false)
unfolding text text_eq
literals = (refl, refl, refl, refl)

protocol_eq_known :
    (a b : Text)
    → is_known a ≡ true
    → is_known b ≡ true
    → protocol_eq (protocol_from_string a) (protocol_from_string b) ≡ text_eq a b
unfolding protocol_from_string
protocol_eq_known a b h k = ground (
  arith,
  literals,
  text_eq_iff a b,
  text_eq_iff a (text "tcp"),
  text_eq_iff a (text "udp"),
  text_eq_iff a (text "sctp"),
  text_eq_iff b (text "tcp"),
  text_eq_iff b (text "udp"),
  text_eq_iff b (text "sctp"),
)

-- How often a port stands in the pod spec.
unfoldable pub occurrences : ℕ → Text → List ContainerPort → ℕ
occurrences n proto [] = 0
occurrences n proto (c ∷ cs) =
    (if (c.container_port == n) && protocol_eq c.protocol (protocol_from_string proto)
      then 1
      else 0)
    + occurrences n proto cs

-- The port and protocol of each mapping.
abbrev pub keys : List PortMapping → List (ℕ × Text)
keys ports = map (λ p. (p.container_port, p.protocol)) ports

is_bound-eq :
    (n m : ℕ) (a b : Text) (seen : List (ℕ × Text))
    → n ≡ m
    → a ≡ b
    → is_bound (n, a) seen ≡ is_bound (m, b) seen
is_bound-eq n m a b seen e f = ap₂ (λ x y. is_bound (x, y) seen) e f

occurrences-dedup_loop :
    (n : ℕ) (proto : Text) (seen : List (ℕ × Text)) (ports : List PortMapping)
    → is_known proto ≡ true
    → All (λ p. is_known p.protocol ≡ true) ports
    → occurrences n proto (dedup_loop seen ports)
      ≡ (if is_bound (n, proto) seen then 0 else if is_bound (n, proto) (keys ports) then 1 else 0)
unfolding occurrences dedup_loop is_bound
occurrences-dedup_loop n proto seen [] known h = ground arith
occurrences-dedup_loop n proto seen (p ∷ ports) known h = ground (
  arith,
  protocol_eq_known p.protocol proto h.0 known,
  text_eq_iff p.protocol proto,
  is_bound-eq p.container_port n p.protocol proto seen,
  occurrences-dedup_loop n proto seen ports known h.1,
  occurrences-dedup_loop n proto ((p.container_port, p.protocol) ∷ seen) ports known h.1,
)

-- With protocols that are supported, each port and protocol stands in the pod spec once if some
-- mapping has it, and else not at all.
pub occurrences-dedup :
    (n : ℕ) (proto : Text) (ports : List PortMapping)
    → is_known proto ≡ true
    → All (λ p. is_known p.protocol ≡ true) ports
    → occurrences n proto (dedup_container_ports ports)
      ≡ (if is_bound (n, proto) (keys ports) then 1 else 0)
unfolding dedup_container_ports
occurrences-dedup n proto ports known h =
    occurrences-dedup_loop n proto [] ports known h ∙ (unfold is_bound in refl)
