-- ===== src/Server/Containers/Requests.antt =====
-- internal/server/containers.go: label filters, and the host ports that create allocates.
use docker_in_kubernetes.Prelude.{
  ℕ, ◌≤◌, true, not, ◌&&◌, none, some, List, [], ◌∷◌, map, ◌≡◌, ◌↔◌, refl, sym, ap, Option, ◌∙◌,
  ◌⊎◌, inl, inr, Option-cases, Bool-cases, arith, Text, text, text_eq, text_eq_iff, Dict, lookup,
  All, parse_uint, parse_uint-itoa, itoa,
}
use docker_in_kubernetes.Forwarder.{Mapping}
use docker_in_kubernetes.Podspec.Ports.{PortMapping, Result, Result-cases, ok}
use docker_in_kubernetes.Server.Containers.{
  LabelFilter, matches_label_filters, allocate_host_ports, to_forwarder_mappings,
}

-- A label that a filter asks for, with its value if the filter gives one.
abbrev pub IsMatch : Dict Text → LabelFilter → Type 0
IsMatch labels f =
    (got : Text) × (lookup f.key labels ≡ some got) × ((f.value ≡ none) ⊎ (f.value ≡ some got))

-- A container passes the filters exactly if each of them names one of its labels, with the value
-- that it gives.
pub matches_label_filters_iff :
    (labels : Dict Text) (filters : List LabelFilter)
    → (matches_label_filters labels filters ≡ true) ↔ All (IsMatch labels) filters
unfolding matches_label_filters
matches_label_filters_iff labels [] = (λ h. tt, λ h. refl)
matches_label_filters_iff labels (f ∷ filters) =
    let (sound, complete) = matches_label_filters_iff labels filters in
    (
      λ h. elim (Option-cases (lookup f.key labels)) [
        | inl e ↦ ground (arith, e)
        | inr (got, e) ↦ elim (Option-cases f.value) [
          | inl v ↦ ((got, e, inl v), sound (ground (arith, e, v)))
          | inr (x, v) ↦
              let same : text_eq got x ≡ true = ground (arith, e, v, Bool-cases (text_eq got x)) in
              let equal = (text_eq_iff got x).0 same in
              ((got, e, inr (ground (arith, v, equal))), sound (ground (arith, e, v, same)))
        ]
      ],
      λ ((got, e, v), hs). elim v [
        | inl n ↦ ground (arith, e, n, complete hs)
        | inr s ↦ ground (arith, e, s, complete hs, text_eq_iff got got)
      ],
    )

-- A mapping whose host port is free, or the decimal number of a port.
abbrev pub IsRequest : PortMapping → Type 0
IsRequest m =
    (m.host_port ≡ [])
    ⊎ (m.host_port ≡ text "0")
    ⊎ ((n : ℕ) × (parse_uint 65535 m.host_port ≡ some n))

given_number :
    (m : PortMapping)
    → IsRequest m
    → not (text_eq m.host_port []) && not (text_eq m.host_port (text "0")) ≡ true
    → (n : ℕ) × (parse_uint 65535 m.host_port ≡ some n)
given_number m (inl e) h = ground (arith, text_eq_iff m.host_port [], e)
given_number m (inr (inl e)) h = ground (arith, text_eq_iff m.host_port (text "0"), e)
given_number m (inr (inr n)) h = n

-- A forwarder's mapping that bridges to the container port of another.
abbrev pub container_ports : List PortMapping → List ℕ
container_ports ms = map (λ m. m.container_port) ms

-- A mapping with a port number gives a pair.
forwarder_step :
    (host : Text) (port : ℕ) (protocol : Text) (n : ℕ) (ms : List PortMapping)
    (pairs : List Mapping)
    → parse_uint 65535 host ≡ some n
    → to_forwarder_mappings ms ≡ ok pairs
    → to_forwarder_mappings
        (record { host_port = host; container_port = port; protocol = protocol } ∷ ms)
      ≡ ok (record { host_port = n; container_port = port } ∷ pairs)
unfolding to_forwarder_mappings parse_uint
forwarder_step [] port protocol n ms pairs h k = ground arith
forwarder_step (c ∷ cs) port protocol n ms pairs h k = ground (arith, h, k)

-- The numbers of the host ports, where they are numbers.
abbrev pub host_ports : List PortMapping → List (Option ℕ)
host_ports ms = map (λ m. parse_uint 65535 m.host_port) ms

hosts_step :
    (out : List PortMapping) (m : PortMapping) (rest : List PortMapping) (pairs : List Mapping)
    (k : ℕ)
    → out ≡ m ∷ rest
    → parse_uint 65535 m.host_port ≡ some k
    → map (λ p. some p.host_port) pairs ≡ host_ports rest
    → map
        (λ p. some p.host_port)
        (record { host_port = k; container_port = m.container_port } ∷ pairs)
      ≡ host_ports out
hosts_step out m rest pairs k same number n =
    ap (λ l. some k ∷ l) n ∙ ap (λ x. x ∷ host_ports rest) (sym number) ∙ ap host_ports (sym same)

-- Once create has allocated the host ports, the conversion that start makes of them for the forwarder
-- succeeds, with one pair for each mapping, in order: its container port, as it was asked for, and the
-- number of its host port, as it was allocated. The host ports asked for are free or decimal numbers, and
-- a listener's port is below 2 ^ 16.
pub allocate-forwarded :
    (listen : List ℕ → Result ℕ)
    → ((taken : List ℕ) (port : ℕ) → listen taken ≡ ok port → port ≤ 65535)
    → (taken : List ℕ) (ms out : List PortMapping) → All IsRequest ms
    → allocate_host_ports listen taken ms ≡ ok out
    → (pairs : List Mapping) × (to_forwarder_mappings out ≡ ok pairs)
      × (map (λ p. p.container_port) pairs ≡ container_ports ms)
      × (map (λ p. some p.host_port) pairs ≡ host_ports out)
unfolding allocate_host_ports to_forwarder_mappings
allocate-forwarded listen valid taken [] out hs h =
    let same : [] ≡ out = ground arith in ([], ground arith, refl, ap host_ports same)
allocate-forwarded listen valid taken (m ∷ ms) out (r, hs) h =
    elim (Bool-cases (not (text_eq m.host_port []) && not (text_eq m.host_port (text "0")))) [
      | inl given ↦ elim (Result-cases (allocate_host_ports listen taken ms)) [
        | inr (e, a) ↦ ground (arith, given, a)
        | inl (rest, a) ↦
            let (pairs, f, c, n) = allocate-forwarded listen valid taken ms rest hs a in
            let same : out ≡ m ∷ rest = ground (arith, given, a) in
            let (k, number) = given_number m r given in
            (
              record { host_port = k; container_port = m.container_port } ∷ pairs,
              ap to_forwarder_mappings same
                  ∙ forwarder_step m.host_port m.container_port m.protocol k rest pairs number f,
              ap (λ l. m.container_port ∷ l) c,
              hosts_step out m rest pairs k same number n,
            )
      ]
      | inr random ↦ elim (Result-cases (listen taken)) [
        | inr (e, l) ↦ ground (arith, random, l)
        | inl (port, l) ↦ elim (Result-cases (allocate_host_ports listen (port ∷ taken) ms)) [
          | inr (e, a) ↦ ground (arith, random, l, a)
          | inl (rest, a) ↦
              let (pairs, f, c, n) = allocate-forwarded listen valid (port ∷ taken) ms rest hs a in
              let same : out ≡ record m { host_port = itoa port } ∷ rest =
                ground (arith, random, l, a) in
              let number : parse_uint 65535 (itoa port) ≡ some port =
                ground (arith, parse_uint-itoa 65535 port, valid taken port l) in
              (
                record { host_port = port; container_port = m.container_port } ∷ pairs,
                ap to_forwarder_mappings same
                    ∙ forwarder_step (itoa port) m.container_port m.protocol port rest pairs number
                        f,
                ap (λ l. m.container_port ∷ l) c,
                hosts_step out (record m { host_port = itoa port }) rest pairs port same number n,
              )
        ]
      ]
    ]
