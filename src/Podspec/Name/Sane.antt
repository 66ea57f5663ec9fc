-- ===== src/Podspec/Name/Sane.antt =====
-- What SanitizeName answers is a name by RFC 1123 (internal/podspec/name.go).

use docker_in_kubernetes.Prelude.{
  ◌↔◌, ℕ, ◌≡◌, ◌≢◌, refl, ◌⊎◌, inl, inr, Bool, true, false, Option, none, some, [], ◌∷◌, map, Text,
  arith, All,
}
use docker_in_kubernetes.Podspec.Name.{
  to_lower, is_alnum, collapse, trim_left, trim_right, clip, sanitize_name,
}
use docker_in_kubernetes.Podspec.Name.Trim.{
  StartsAlnum, IsLabel, collapse_chars, trim_left_chars, trim_left-first, IsTrimmed,
  trim_right-IsTrimmed, clip-IsLabel,
}

-- What the input is before it is clipped.
abbrev cleaned : Text → Text
cleaned input = trim_left (collapse false (map to_lower input))

cleaned_cases : (input : Text) → (cleaned input ≡ []) ⊎ StartsAlnum (cleaned input)
cleaned_cases input =
    trim_left-first (collapse false (map to_lower input))
      (collapse_chars false (map to_lower input))

cleaned-IsTrimmed :
    (input : Text) → StartsAlnum (cleaned input) → IsTrimmed (trim_right (cleaned input))
cleaned-IsTrimmed input first =
    trim_right-IsTrimmed (cleaned input)
      (trim_left_chars _ (collapse_chars false (map to_lower input))) first

or_fail : Text → Option Text
or_fail [] = none
or_fail (d ∷ out) = some (d ∷ out)

sanitize_name-cons :
    (suffix : Text) (c : ℕ) (input : Text)
    → sanitize_name suffix (c ∷ input) ≡ or_fail (clip (trim_right (cleaned (c ∷ input))))
unfolding sanitize_name or_fail
sanitize_name-cons suffix c input = ground arith

trim_empty : (s : Text) → s ≡ [] → clip (trim_right s) ≡ []
unfolding clip trim_right trim_left
trim_empty s e = rw e

or_fail-some : (s : Text) → StartsAlnum s → or_fail s ≡ some s
unfolding or_fail
or_fail-some [] h = absurd h
or_fail-some (c ∷ s) h = refl

-- A name that is not empty becomes a label by RFC 1123, of at most 63 characters, if it becomes one
-- at all.
pub sanitize_name-IsLabel :
    (suffix input out : Text) → input ≢ [] → sanitize_name suffix input ≡ some out → IsLabel out
sanitize_name-IsLabel suffix [] out h e = absurd (h refl)
sanitize_name-IsLabel suffix (c ∷ input) out h e = elim (cleaned_cases (c ∷ input)) [
  | inl gone ↦ absurd (
      unfold or_fail in
      ground (arith, sanitize_name-cons suffix c input, trim_empty (cleaned (c ∷ input)) gone))
  | inr first ↦
      let label = clip-IsLabel _ (cleaned-IsTrimmed (c ∷ input) first) in
      let same : clip (trim_right (cleaned (c ∷ input))) ≡ out = ground (
        arith,
        sanitize_name-cons suffix c input,
        or_fail-some (clip (trim_right (cleaned (c ∷ input)))) label.first,
      ) in
      rw (← same) label
]

collapse_gone :
    (run : Bool) (s : Text) → trim_left (collapse run s) ≡ [] → All (λ d. is_alnum d ≡ false) s
unfolding collapse trim_left is_alnum
collapse_gone run [] h = tt
collapse_gone run (c ∷ s) h = ground (arith, collapse_gone false s, collapse_gone true s)

gone_collapse :
    (run : Bool) (s : Text) → All (λ d. is_alnum d ≡ false) s → trim_left (collapse run s) ≡ []
unfolding collapse trim_left
gone_collapse run [] h = refl
gone_collapse run (c ∷ s) h = ground (arith, gone_collapse true s h.1)

-- Sanitizing fails exactly on the names in which no character is, in lower case, a letter or a digit
-- of ASCII.
pub sanitize_name_fails_iff :
    (suffix : Text) (c : ℕ) (input : Text)
    → (sanitize_name suffix (c ∷ input) ≡ none)
      ↔ All (λ d. is_alnum d ≡ false) (map to_lower (c ∷ input))
sanitize_name_fails_iff suffix c input = (to, from)
  where
    to :
        sanitize_name suffix (c ∷ input) ≡ none
        → All (λ d. is_alnum d ≡ false) (map to_lower (c ∷ input))
    to e = elim (cleaned_cases (c ∷ input)) [
      | inl gone ↦ collapse_gone false (map to_lower (c ∷ input)) gone
      | inr first ↦
          let label = clip-IsLabel _ (cleaned-IsTrimmed (c ∷ input) first) in
          absurd (
            ground (
              arith,
              sanitize_name-cons suffix c input,
              or_fail-some (clip (trim_right (cleaned (c ∷ input)))) label.first,
            ))
    ]

    from :
        All (λ d. is_alnum d ≡ false) (map to_lower (c ∷ input))
        → sanitize_name suffix (c ∷ input) ≡ none
    from h =
        unfold or_fail in
        ground (
          arith,
          sanitize_name-cons suffix c input,
          trim_empty (cleaned (c ∷ input)) (gone_collapse false (map to_lower (c ∷ input)) h),
        )
