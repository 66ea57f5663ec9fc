-- ===== src/Podspec/Name/Trim.antt =====
-- Labels by RFC 1123, and what collapsing, trimming and clipping leave of a text
-- (internal/podspec/name.go).
use mathlib.Core.List.{reverse-reverse, reverse-append, reverse-cons}
use docker_in_kubernetes.Prelude.{
  ℕ, ◌≤◌, ◌≡◌, refl, sym, ap, ◌∙◌, ◌⊎◌, inl, inr, Bool, true, false, [], ◌∷◌, ◌++◌, reverse, Text,
  arith, length, length-append, length-take, take, All, All-append, All-take, Bool-cases, ltb,
}
use docker_in_kubernetes.Podspec.Name.{
  is_alnum, collapse, trim_left, trim_right, clip, max_k8s_name_len,
}

abbrev pub IsNameChar : ℕ → Type 0
IsNameChar c = (is_alnum c ≡ true) ⊎ (c ≡ b'-')

-- The first character is a letter or a digit.
abbrev pub StartsAlnum : Text → Type 0
StartsAlnum [] = ⊥
StartsAlnum (c ∷ s) = is_alnum c ≡ true

-- A label by RFC 1123.
pub record IsLabel (s : Text) : Type 0 where
  pub chars : All IsNameChar s
  pub first : StartsAlnum s
  pub last : StartsAlnum (reverse s)
  pub short : length s ≤ max_k8s_name_len

pub collapse_chars : (run : Bool) (s : Text) → All IsNameChar (collapse run s)
unfolding collapse
collapse_chars run [] = tt
collapse_chars run (c ∷ s) = ground (arith, collapse_chars false s, collapse_chars true s)

pub trim_left_chars : (s : Text) → All IsNameChar s → All IsNameChar (trim_left s)
unfolding trim_left
trim_left_chars [] h = tt
trim_left_chars (c ∷ s) h = ground (arith, trim_left_chars s h.1)

reverse_chars : (s : Text) → All IsNameChar s → All IsNameChar (reverse s)
reverse_chars [] h = tt
reverse_chars (c ∷ s) h =
    rw (reverse-cons c s)
      (All-append IsNameChar (reverse s) (c ∷ []) (reverse_chars s h.1) (h.0, tt))

-- Trimmed text is empty or starts with a letter or a digit.
pub trim_left-first : (s : Text) → All IsNameChar s → (trim_left s ≡ []) ⊎ StartsAlnum (trim_left s)
unfolding trim_left
trim_left-first [] h = inl refl
trim_left-first (c ∷ s) h = ground (arith, trim_left-first s h.1)

length-trim_left-le : (s : Text) → length (trim_left s) ≤ length s
unfolding trim_left
length-trim_left-le [] = omega arith
length-trim_left-le (c ∷ s) = ground (arith, length-trim_left-le s)

length-reverse : (s : Text) → length (reverse s) ≡ length s
length-reverse [] = refl
length-reverse (c ∷ s) =
    omega
      (arith, ap length (reverse-cons c s), length-append (reverse s) (c ∷ []), length-reverse s)

trim_left-snoc :
    (s : Text) (c : ℕ) → is_alnum c ≡ true → trim_left (s ++ c ∷ []) ≡ trim_left s ++ c ∷ []
unfolding trim_left is_alnum
trim_left-snoc [] c h = ground arith
trim_left-snoc (d ∷ s) c h = ground (arith, trim_left-snoc s c h)

trim_right-cons : (c : ℕ) (s : Text) → is_alnum c ≡ true → trim_right (c ∷ s) ≡ c ∷ trim_right s
unfolding trim_right
trim_right-cons c s h =
    rw (reverse-cons c s, trim_left-snoc (reverse s) c h)
      (reverse-append (trim_left (reverse s)) (c ∷ []))

-- Trimming on the right keeps the start, and leaves a letter or a digit at the end.
pub record IsTrimmed (s : Text) : Type 0 where
  pub chars : All IsNameChar s
  pub first : StartsAlnum s
  pub last : StartsAlnum (reverse s)

pub trim_right-IsTrimmed : (s : Text) → All IsNameChar s → StartsAlnum s → IsTrimmed (trim_right s)
trim_right-IsTrimmed [] chars first = absurd first
trim_right-IsTrimmed (c ∷ s) chars first = record {
  chars = unfold trim_right in reverse_chars _ (trim_left_chars _ (reverse_chars (c ∷ s) chars));
  first = rw (trim_right-cons c s first) first;
  last = last_of (trim_left-first (reverse (c ∷ s)) (reverse_chars (c ∷ s) chars));
}
  where
    last_of :
        (trim_left (reverse (c ∷ s)) ≡ []) ⊎ StartsAlnum (trim_left (reverse (c ∷ s)))
        → StartsAlnum (reverse (trim_right (c ∷ s)))
    last_of (inl e) =
        absurd (cons-ne-nil (sym (trim_right-cons c s first) ∙ (unfold trim_right in ap reverse e)))
      where
        cons-ne-nil : c ∷ trim_right s ≡ [] → ⊥
        cons-ne-nil e = cc
    last_of (inr h) = unfold trim_right in rw reverse-reverse h

length-trim_right-le : (s : Text) → length (trim_right s) ≤ length s
unfolding trim_right
length-trim_right-le s = omega (
  arith,
  length-reverse (trim_left (reverse s)),
  length-trim_left-le (reverse s),
  length-reverse s,
)

pub clip-IsLabel : (s : Text) → IsTrimmed s → IsLabel (clip s)
unfolding clip
clip-IsLabel s h = elim (Bool-cases (ltb max_k8s_name_len (length s))) [
  | inr short ↦
      rw (short, clip)
        (record { chars = h.chars; first = h.first; last = h.last; short = ground arith })
  | inl long ↦ rw (long, clip) (clipped s h)
]
  where
    clipped : (s : Text) → IsTrimmed s → IsLabel (trim_right (take max_k8s_name_len s))
    clipped [] h = absurd h.first
    clipped (c ∷ s) h =
        let t =
          trim_right-IsTrimmed (take max_k8s_name_len (c ∷ s))
            (All-take IsNameChar max_k8s_name_len (c ∷ s) h.chars) h.first in
        record {
          chars = t.chars;
          first = t.first;
          last = t.last;
          short = omega (
            arith,
            length-trim_right-le (take max_k8s_name_len (c ∷ s)),
            length-take max_k8s_name_len (c ∷ s),
          );
        }
