-- ===== src/Podspec/Ports/Spec.antt =====
-- Port specifications (parsePortSpec of internal/podspec/spec.go).
use docker_in_kubernetes.Prelude.{
  ℕ, ◌≤◌, ◌<◌, ◌≡◌, refl, inl, inr, true, false, not, [], ◌∷◌, ◌++◌, Text, text, arith,
  text_eq_refl, cut, cut-append, cut_absent, contains, parse_uint, parse_uint-itoa, parse_uint-le,
  itoa, itoa_digits, IsDigit, All, if◌then◌else◌, Bool-cases, Option-cases,
}
use docker_in_kubernetes.Podspec.Ports.{ok, err, parse_port_spec, parse_port_number, is_known}

digits_no_slash : (s : Text) → All IsDigit s → contains s b'/' ≡ false
unfolding contains
digits_no_slash [] h = refl
digits_no_slash (c ∷ s) h = ground (arith, digits_no_slash s h.1)

number_lem :
    (n : ℕ) (proto : Text) → 0 < n → n ≤ 65535 → parse_port_number (itoa n) proto ≡ ok (n, proto)
unfolding parse_port_number
number_lem n proto h k = ground (arith, parse_uint-itoa 65535 n)

-- A port from 1 to 65535 printed with a protocol that is supported is parsed back, and so is the
-- bare number, as TCP.
pub parse_port_spec-print :
    (n : ℕ) (proto : Text)
    → 0 < n
    → n ≤ 65535
    → is_known proto ≡ true
    → (parse_port_spec (itoa n ++ b'/' ∷ proto) ≡ ok (n, proto))
      × (parse_port_spec (itoa n) ≡ ok (n, text "tcp"))
unfolding parse_port_spec
parse_port_spec-print n proto h k known = (
  rw (cut-append (itoa n) proto b'/' (digits_no_slash (itoa n) (itoa_digits n)), known)
      (number_lem n proto h k),
  rw
      (
        cut_absent (itoa n) b'/' (digits_no_slash (itoa n) (itoa_digits n)),
        text_eq_refl (text "tcp"),
      )
      (number_lem n (text "tcp") h k),
)

number_sound :
    (port proto : Text) (n : ℕ) (p : Text)
    → parse_port_number port proto ≡ ok (n, p)
    → (0 < n) × (n ≤ 65535) × (p ≡ proto)
unfolding parse_port_number
number_sound port proto n p h = elim (Option-cases (parse_uint 65535 port)) [
  | inl bad ↦ absurd (ground arith)
  | inr (m, good) ↦ ground (arith, parse_uint-le 65535 m port good)
]

checked_sound :
    (port proto e : Text) (n : ℕ) (p : Text)
    → (if not (is_known proto) then err e else parse_port_number port proto) ≡ ok (n, p)
    → (0 < n) × (n ≤ 65535) × (is_known p ≡ true)
checked_sound port proto e n p h = elim (Bool-cases (is_known proto)) [
  | inl known ↦ ground (arith, number_sound port proto n p)
  | inr unknown ↦ absurd (ground arith)
]

-- Whatever is parsed is a port from 1 to 65535 with a protocol that is supported.
pub parse_port_spec_sound :
    (s : Text) (n : ℕ) (proto : Text)
    → parse_port_spec s ≡ ok (n, proto)
    → (0 < n) × (n ≤ 65535) × (is_known proto ≡ true)
unfolding parse_port_spec
parse_port_spec_sound s n proto h =
    let (port, after, found) = cut s b'/' in
    checked_sound port (if found then after else text "tcp") _ n proto h
