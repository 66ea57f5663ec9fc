-- ===== src/Podspec/Ports.antt =====
-- internal/podspec/spec.go: the published and exposed ports of a create request. The two maps of the
-- request are lists of entries, in the order in which `range` visits them. Texts that
-- an error quotes are put between quotes as they are.
pub mod Spec
pub mod Order
pub mod Bounds
pub mod Loops
pub mod Deterministic
pub mod Dedup
use docker_in_kubernetes.Prelude.{
  ◌≡◌, refl, ◌⊎◌, inl, inr, ℕ, zero, suc, ◌+◌, Bool, true, false, not, ◌&&◌, ◌||◌, Option, none,
  some, List, [], ◌∷◌, ◌++◌, map, Text, text, ltb, ◌==◌, if◌then◌else◌, text_eq, text_lt, cut,
  parse_uint, sort_by,
}

-- PortMapping. The container port is below 2 ^ 16.
pub record PortMapping : Type 0 where
  pub host_port : Text
  pub container_port : ℕ
  pub protocol : Text

-- A fallible step: its value, or the text of its error.
pub data Result {ℓ} (A : Type ℓ) : Type ℓ where
  ok : A → Result A
  err : Text → Result A

pub Result-cases {ℓ} :
    {A : Type ℓ} (r : Result A) → ((a : A) × (r ≡ ok a)) ⊎ ((e : Text) × (r ≡ err e))
Result-cases (ok a) = inl (a, refl)
Result-cases (err e) = inr (e, refl)

infixl 5 ◌>>=◌
abbrev pub ◌>>=◌ {ℓ κ} : {A : Type ℓ} {B : Type κ} → Result A → (A → Result B) → Result B
ok a >>= f = f a
err e >>= f = err e

abbrev pub context {ℓ} : {A : Type ℓ} → Text → Result A → Result A
context where_ (ok a) = ok a
context where_ (err e) = err (where_ ++ e)

abbrev pub is_known : Text → Bool
is_known proto =
    text_eq proto (text "tcp") || text_eq proto (text "udp") || text_eq proto (text "sctp")

-- The number of parsePortSpec, once the protocol is known.
unfoldable pub parse_port_number : Text → Text → Result (ℕ × Text)
parse_port_number port proto = elim (parse_uint 65535 port) [
  | none ↦ err (text "invalid port number \"" ++ port ++ text "\"")
  | some n ↦ if n == 0 then err (text "port 0 is not allowed") else ok (n, proto)
]

unfoldable pub parse_port_spec : Text → Result (ℕ × Text)
unfolding parse_port_number
parse_port_spec s =
    let (port, after, found) = cut s b'/' in
    let proto : Text = if found then after else text "tcp" in
    if not (is_known proto)
    then err (text "unsupported protocol \"" ++ proto ++ text "\"")
    else parse_port_number port proto

-- The host ports of one entry; an entry with no binding asks for one port of any number.
unfoldable pub mappings_of : ℕ → Text → List Text → List PortMapping
mappings_of port proto [] = record { host_port = []; container_port = port; protocol = proto } ∷ []
mappings_of port proto (h ∷ hosts) =
    map (λ b. record { host_port = b; container_port = port; protocol = proto }) (h ∷ hosts)

-- The loop over the bindings: the keys bound, and the mappings.
unfoldable pub bind_loop : List (Text × List Text) → Result (List (ℕ × Text) × List PortMapping)
bind_loop [] = ok ([], [])
bind_loop ((spec, binds) ∷ bindings) = do
  key ← context (text "port \"" ++ spec ++ text "\": ") (parse_port_spec spec)
  rest ← bind_loop bindings
  ok (key ∷ rest.0, mappings_of key.0 key.1 binds ++ rest.1)

unfoldable pub is_bound : ℕ × Text → List (ℕ × Text) → Bool
is_bound key [] = false
is_bound key (k ∷ bound) = ((k.0 == key.0) && text_eq k.1 key.1) || is_bound key bound

-- The loop over the exposed ports.
unfoldable pub expose_loop : List (ℕ × Text) → List Text → Result (List PortMapping)
unfolding is_bound
expose_loop bound [] = ok []
expose_loop bound (spec ∷ exposed) = do
  key ← context (text "exposed port \"" ++ spec ++ text "\": ") (parse_port_spec spec)
  rest ← expose_loop bound exposed
  ok (
      if is_bound key bound
      then rest
      else record { host_port = []; container_port = key.0; protocol = key.1 } ∷ rest)

-- The comparison that the mappings are sorted by.
unfoldable pub mapping_less : PortMapping → PortMapping → Bool
mapping_less a b =
    if not (a.container_port == b.container_port)
    then ltb a.container_port b.container_port
    else if not (text_eq a.protocol b.protocol)
    then text_lt a.protocol b.protocol
    else text_lt a.host_port b.host_port

unfoldable pub parse_port_bindings : List (Text × List Text) → List Text → Result (List PortMapping)
parse_port_bindings bindings exposed = do
  bound ← bind_loop bindings
  extra ← expose_loop bound.0 exposed
  ok (sort_by mapping_less (bound.1 ++ extra))

-- protocolFromString.
pub data Protocol : Type 0 where
  tcp udp sctp : Protocol

unfoldable pub protocol_from_string : Text → Protocol
protocol_from_string s =
    if text_eq s (text "udp") then udp else if text_eq s (text "sctp") then sctp else tcp

pub record ContainerPort : Type 0 where
  pub container_port : ℕ
  pub protocol : Protocol

-- The loop of dedupContainerPorts.
unfoldable pub dedup_loop : List (ℕ × Text) → List PortMapping → List ContainerPort
unfolding is_bound protocol_from_string
dedup_loop seen [] = []
dedup_loop seen (p ∷ ports) =
    let skipped = dedup_loop seen ports in
    let kept =
      record { container_port = p.container_port; protocol = protocol_from_string p.protocol }
      ∷ dedup_loop ((p.container_port, p.protocol) ∷ seen) ports in
    if is_bound (p.container_port, p.protocol) seen then skipped else kept

unfoldable pub dedup_container_ports : List PortMapping → List ContainerPort
unfolding dedup_loop
dedup_container_ports ports = dedup_loop [] ports
