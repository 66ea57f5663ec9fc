-- ===== src/Server/Router/Version.antt =====
-- internal/server/server.go: which path the handlers see.
use docker_in_kubernetes.Prelude.{
  true, false, some, [], ◌∷◌, ◌++◌, Text, ◌≡◌, ◌≢◌, refl, ap, sym, append-nil, ◌∙◌, All, arith,
}
use docker_in_kubernetes.Server.Router.{
  is_digit, after_digits, some_digits, version_prefix, strip_version_prefix,
}

-- A text that does not begin with a digit.
abbrev pub EndsDigits : Text → Type 0
EndsDigits [] = Unit
EndsDigits (c ∷ s) = is_digit c ≡ false

after_digits_lem :
    (ds rest : Text)
    → All (λ c. is_digit c ≡ true) ds
    → EndsDigits rest
    → after_digits (ds ++ rest) ≡ rest
unfolding after_digits
after_digits_lem [] [] h e = refl
after_digits_lem [] (c ∷ rest) h e = ground (arith, e)
after_digits_lem (d ∷ ds) rest (h, hs) e = ground (arith, h, after_digits_lem ds rest hs e)

some_digits_lem :
    (ds rest : Text)
    → ds ≢ []
    → All (λ c. is_digit c ≡ true) ds
    → EndsDigits rest
    → some_digits (ds ++ rest) ≡ some rest
unfolding some_digits
some_digits_lem [] rest n h e = elim (n refl) [ ]
some_digits_lem (d ∷ ds) rest n (h, hs) e = ground (arith, h, after_digits_lem ds rest hs e)

-- A path with the prefix /v<major>.<minor> is handled as what follows the prefix, when that is
-- empty, which stands for /, or begins with a slash.
pub strip_version_prefix_lem :
    (major minor rest : Text)
    → major ≢ []
    → All (λ c. is_digit c ≡ true) major
    → minor ≢ []
    → All (λ c. is_digit c ≡ true) minor
    → (strip_version_prefix (b'/' ∷ b'v' ∷ major ++ b'.' ∷ minor) ≡ b'/' ∷ [])
      × (strip_version_prefix (b'/' ∷ b'v' ∷ major ++ b'.' ∷ (minor ++ b'/' ∷ rest)) ≡ b'/' ∷ rest)
unfolding strip_version_prefix version_prefix
strip_version_prefix_lem major minor rest a ha b hb =
    let m1 = some_digits_lem major (b'.' ∷ minor) a ha refl in
    let bare : some_digits minor ≡ some [] =
      ap some_digits (sym (append-nil minor)) ∙ some_digits_lem minor [] b hb tt in
    let m2 = some_digits_lem major (b'.' ∷ (minor ++ b'/' ∷ rest)) a ha refl in
    let more = some_digits_lem minor (b'/' ∷ rest) b hb refl in
    (ground (arith, m1, bare), ground (arith, m2, more))
