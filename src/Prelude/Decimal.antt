-- ===== src/Prelude/Decimal.antt =====
-- strconv in base 10: Itoa and FormatInt of numbers that are not negative, ParseUint with a bound on
-- the value, and that they are inverse.
use Prim.Native.Nat.{ℕ, zero, suc, ◌+◌, ◌-◌, ◌*◌, ◌/◌, ◌%◌, ◌≤◌, ◌<◌}
use mathlib.Core.Path.{◌≡◌, refl}
use mathlib.Core.Bool.{Bool, ◌&&◌}
use mathlib.Core.Logic.{◌≢◌, inl, inr}
use mathlib.Core.List.{[], ◌∷◌, ◌++◌}
use mathlib.Core.Option.{Option, none, some}
use native.Mathlib.Omega.{arith}
use docker_in_kubernetes.Prelude.Tests.{Bool-cases, ltb, leb, if◌then◌else◌}
use docker_in_kubernetes.Prelude.Lists.{All, All-append}
use docker_in_kubernetes.Prelude.Strings.{Text}

abbrev pub IsDigit : ℕ → Type 0
IsDigit c = (b'0' ≤ c) × (c ≤ b'9')

abbrev is_digit : ℕ → Bool
is_digit c = leb b'0' c && leb c b'9'

-- The value of the digits behind the value of those read so far; `none` for any other character.
unfoldable pub digits_from : ℕ → Text → Option ℕ
digits_from acc [] = some acc
digits_from acc (c ∷ s) =
    let rest = digits_from (acc * 10 + (c - b'0')) s in if is_digit c then rest else none

-- ParseUint(s, 10, bits), with the largest value that fits. The value is computed without wrapping,
-- and refused when it is too large.
unfoldable pub parse_uint : ℕ → Text → Option ℕ
parse_uint most [] = none
parse_uint most (c ∷ s) = elim (digits_from 0 (c ∷ s)) [
  | none ↦ none
  | some n ↦ if leb n most then some n else none
]

unfoldable pub itoa_fuel : ℕ → ℕ → Text
itoa_fuel zero n = []
itoa_fuel (suc fuel) n =
    let front = itoa_fuel fuel (n / 10) in
    if ltb n 10 then (b'0' + n) ∷ [] else front ++ (b'0' + n % 10) ∷ []

-- A number has no more digits than its value plus one.
unfoldable pub itoa : ℕ → Text
unfolding itoa_fuel
itoa n = itoa_fuel (suc n) n

digits_from-append :
    (acc m : ℕ) (s t : Text)
    → digits_from acc s ≡ some m
    → digits_from acc (s ++ t) ≡ digits_from m t
unfolding digits_from
digits_from-append acc m [] t h = ground arith
digits_from-append acc m (c ∷ s) t h =
    ground (arith, digits_from-append (acc * 10 + (c - b'0')) m s t)

digits_from-itoa_fuel : (fuel n : ℕ) → n < fuel → digits_from 0 (itoa_fuel fuel n) ≡ some n
unfolding itoa_fuel
digits_from-itoa_fuel zero n h = absurd (omega arith)
digits_from-itoa_fuel (suc fuel) n h = elim (Bool-cases (ltb n 10)) [
  | inl small ↦ rw (small, itoa_fuel) (unfold digits_from in ground arith)
  | inr large ↦
      rw
        (
          large,
          itoa_fuel,
          digits_from-append 0 (n / 10) (itoa_fuel fuel (n / 10)) ((b'0' + n % 10) ∷ [])
              (digits_from-itoa_fuel fuel (n / 10) (ground arith)),
        )
        (unfold digits_from in ground arith)
]

pub digits_from-itoa : (n : ℕ) → digits_from 0 (itoa n) ≡ some n
unfolding itoa
digits_from-itoa n = digits_from-itoa_fuel (suc n) n (omega arith)

itoa_fuel_digits : (fuel n : ℕ) → All IsDigit (itoa_fuel fuel n)
unfolding itoa_fuel
itoa_fuel_digits zero n = tt
itoa_fuel_digits (suc fuel) n = elim (Bool-cases (ltb n 10)) [
  | inl small ↦ rw (small, itoa_fuel) (ground arith, tt)
  | inr large ↦
      rw (large, itoa_fuel)
        (All-append IsDigit (itoa_fuel fuel (n / 10)) ((b'0' + n % 10) ∷ [])
          (itoa_fuel_digits fuel (n / 10)) (ground arith, tt))
]

-- A number is printed with digits.
pub itoa_digits : (n : ℕ) → All IsDigit (itoa n)
unfolding itoa
itoa_digits n = itoa_fuel_digits (suc n) n

snoc-ne-nil : (s : Text) (c : ℕ) → s ++ c ∷ [] ≢ []
snoc-ne-nil [] c e = cc
snoc-ne-nil (d ∷ s) c e = cc

pub itoa-ne-nil : (n : ℕ) → itoa n ≢ []
unfolding itoa
itoa-ne-nil n e = ground (arith, snoc-ne-nil (itoa_fuel n (n / 10)) (b'0' + n % 10))

parse_uint-eq :
    (most n : ℕ) (s : Text)
    → s ≢ []
    → digits_from 0 s ≡ some n
    → parse_uint most s ≡ (if leb n most then some n else none)
unfolding parse_uint
parse_uint-eq most n [] ne h = absurd (ne refl)
parse_uint-eq most n (c ∷ s) ne h = ground arith

-- Parsing a printed number gives it back, or fails where it is too large.
pub parse_uint-itoa :
    (most n : ℕ) → parse_uint most (itoa n) ≡ (if leb n most then some n else none)
parse_uint-itoa most n = parse_uint-eq most n (itoa n) (itoa-ne-nil n) (digits_from-itoa n)

pub parse_uint-le : (most n : ℕ) (s : Text) → parse_uint most s ≡ some n → n ≤ most
unfolding parse_uint
parse_uint-le most n [] h = cc
parse_uint-le most n (c ∷ s) h = ground arith
