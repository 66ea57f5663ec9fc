-- ===== src/Prelude/Strings.antt =====
-- Go strings as lists of code points, with the operations of package strings that the code uses.
use Prim.Native.Char.{code}
use Prim.Native.String.{String}
use Prim.Native.Nat.{ℕ}
use mathlib.Core.Path.{◌≡◌, refl}
use mathlib.Core.Logic.{◌↔◌, ◌⊎◌, inl, inr}
use mathlib.Core.Bool.{Bool, true, false, ◌&&◌, ◌||◌}
use mathlib.Core.List.{List, [], ◌∷◌, ◌++◌, reverse}
use mathlib.Core.Option.{Option, none, some}
use native.Mathlib.Omega.{arith}
use docker_in_kubernetes.Prelude.Tests.{◌==◌, ltb, if◌then◌else◌}

abbrev pub Text : Type 0
Text = List ℕ

-- A literal. It is shut, so that the tactics see a literal as an atom.
unfoldable pub text : String → Text
text String.[] = []
text (String.◌∷◌ c s) = code c ∷ text s

unfoldable pub text_eq : Text → Text → Bool
text_eq [] [] = true
text_eq (a ∷ s) (b ∷ t) = (a == b) && text_eq s t
text_eq [] (b ∷ t) = false
text_eq (a ∷ s) [] = false

pub text_eq_iff : (s t : Text) → (text_eq s t ≡ true) ↔ (s ≡ t)
unfolding text_eq
text_eq_iff [] [] = (λ _. refl, λ _. refl)
text_eq_iff (a ∷ s) (b ∷ t) = ground (arith, text_eq_iff s t)
text_eq_iff [] (b ∷ t) = ground arith
text_eq_iff (a ∷ s) [] = ground arith

pub text_eq_refl : (s : Text) → text_eq s s ≡ true
text_eq_refl s = (text_eq_iff s s).1 refl

-- strings.CutPrefix
unfoldable pub cut_prefix : Text → Text → Option Text
cut_prefix s [] = some s
cut_prefix [] (b ∷ p) = none
cut_prefix (a ∷ s) (b ∷ p) = if a == b then cut_prefix s p else none

-- strings.HasPrefix
unfoldable pub has_prefix : Text → Text → Bool
has_prefix s [] = true
has_prefix [] (b ∷ p) = false
has_prefix (a ∷ s) (b ∷ p) = (a == b) && has_prefix s p

-- strings.TrimPrefix
unfoldable pub trim_prefix : Text → Text → Text
unfolding cut_prefix
trim_prefix s p = elim (cut_prefix s p) [ some rest ↦ rest | none ↦ s ]

-- strings.CutSuffix
unfoldable pub cut_suffix : Text → Text → Option Text
unfolding cut_prefix
cut_suffix s p = elim (cut_prefix (reverse s) (reverse p)) [
  | some rest ↦ some (reverse rest)
  | none ↦ none
]

-- strings.Contains for a text of one character.
unfoldable pub contains : Text → ℕ → Bool
contains [] c = false
contains (a ∷ s) c = (a == c) || contains s c

-- strings.ContainsAny
unfoldable pub contains_any : Text → Text → Bool
unfolding contains
contains_any [] cs = false
contains_any (a ∷ s) cs = contains cs a || contains_any s cs

-- strings.Cut at a separator of one character: before, after, found.
unfoldable pub cut : Text → ℕ → Text × Text × Bool
cut [] c = ([], [], false)
cut (a ∷ s) c =
    let (before, after, found) = cut s c in
    if a == c then ([], s, true) else (a ∷ before, after, found)

-- `<` on Go strings.
unfoldable pub text_lt : Text → Text → Bool
text_lt [] [] = false
text_lt [] (b ∷ t) = true
text_lt (a ∷ s) [] = false
text_lt (a ∷ s) (b ∷ t) = ltb a b || ((a == b) && text_lt s t)

pub cut_prefix-append : (p s : Text) → cut_prefix (p ++ s) p ≡ some s
unfolding cut_prefix
cut_prefix-append [] s = refl
cut_prefix-append (a ∷ p) s = ground (arith, cut_prefix-append p s)

pub cut_prefix-eq-some : (s p r : Text) → cut_prefix s p ≡ some r → s ≡ p ++ r
unfolding cut_prefix
cut_prefix-eq-some s [] r h = ground arith
cut_prefix-eq-some [] (b ∷ p) r h = cc
cut_prefix-eq-some (a ∷ s) (b ∷ p) r h = ground (arith, cut_prefix-eq-some s p r)

pub has_prefix_sound : (s p : Text) → has_prefix s p ≡ true → (r : Text) × (s ≡ p ++ r)
unfolding has_prefix
has_prefix_sound s [] h = (s, refl)
has_prefix_sound [] (b ∷ p) h = cc
has_prefix_sound (a ∷ s) (b ∷ p) h =
    let (r, e) = has_prefix_sound s p (ground arith) in (r, ground arith)

pub has_prefix-append : (p r : Text) → has_prefix (p ++ r) p ≡ true
unfolding has_prefix
has_prefix-append [] r = refl
has_prefix-append (a ∷ p) r = ground (arith, has_prefix-append p r)

pub cut-append : (s t : Text) (c : ℕ) → contains s c ≡ false → cut (s ++ c ∷ t) c ≡ (s, t, true)
unfolding cut contains
cut-append [] t c h = ground arith
cut-append (a ∷ s) t c h = ground (arith, cut-append s t c)

pub cut_absent : (s : Text) (c : ℕ) → contains s c ≡ false → cut s c ≡ (s, [], false)
unfolding cut contains
cut_absent [] c h = refl
cut_absent (a ∷ s) c h = ground (arith, cut_absent s c)

pub text_eq-append : (s : Text) (c : ℕ) (t : Text) → text_eq (s ++ c ∷ t) s ≡ false
unfolding text_eq
text_eq-append [] c t = refl
text_eq-append (a ∷ s) c t = ground (arith, text_eq-append s c t)

pub Text-cases : (t : Text) → (t ≡ []) ⊎ ((c : ℕ) × (cs : Text) × (t ≡ c ∷ cs))
Text-cases [] = inl refl
Text-cases (c ∷ cs) = inr (c, cs, refl)
