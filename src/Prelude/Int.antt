-- ===== src/Prelude/Int.antt =====
-- Signed integers, for the int32 and int64 values that may be negative, and strconv.ParseInt.
use Prim.Native.Nat.{ℕ, zero, suc, ◌+◌}
use mathlib.Core.Path.{◌≡◌, refl}
use mathlib.Core.Bool.{Bool, true, false}
use mathlib.Core.List.{[], ◌∷◌}
use mathlib.Core.Option.{Option, none, some}
use native.Mathlib.Omega.{arith}
use docker_in_kubernetes.Prelude.Tests.{◌==◌, ltb, if◌then◌else◌}
use docker_in_kubernetes.Prelude.Strings.{Text}
use docker_in_kubernetes.Prelude.Decimal.{parse_uint, itoa}

-- `negsuc n` is -(n + 1).
pub data ℤ : Type 0 where
  pos : ℕ → ℤ
  negsuc : ℕ → ℤ

-- The number -n.
abbrev pub neg : ℕ → ℤ
neg zero = pos 0
neg (suc n) = negsuc n

abbrev pub int64_max : ℕ
int64_max = 9223372036854775807

-- FormatInt and the verb %d.
unfoldable pub format_int : ℤ → Text
format_int (pos n) = itoa n
format_int (negsuc n) = b'-' ∷ itoa (suc n)

-- ParseInt(s, 10, 64): a sign, then digits.
unfoldable pub parse_int : Text → Option ℤ
parse_int [] = none
parse_int (c ∷ s) =
    let plain : Option ℤ = elim (parse_uint int64_max (c ∷ s)) [
      | none ↦ none
      | some n ↦ some (pos n)
    ] in
    let plus : Option ℤ = elim (parse_uint int64_max s) [ none ↦ none | some n ↦ some (pos n) ] in
    let minus : Option ℤ = elim (parse_uint (int64_max + 1) s) [
      | none ↦ none
      | some n ↦ some (neg n)
    ] in
    if c == b'-' then minus else if c == b'+' then plus else plain

abbrev pub int_lt : ℤ → ℤ → Bool
int_lt (pos m) (pos n) = ltb m n
int_lt (pos m) (negsuc n) = false
int_lt (negsuc m) (pos n) = true
int_lt (negsuc m) (negsuc n) = ltb n m

pub int_lt_asym : (a b : ℤ) → int_lt a b ≡ true → int_lt b a ≡ false
int_lt_asym (pos m) (pos n) h = ground arith
int_lt_asym (pos m) (negsuc n) h = ground arith
int_lt_asym (negsuc m) (pos n) h = refl
int_lt_asym (negsuc m) (negsuc n) h = ground arith

pub int_lt_neg_trans : (a b c : ℤ) → int_lt a b ≡ false → int_lt b c ≡ false → int_lt a c ≡ false
int_lt_neg_trans (pos m) (pos n) (pos o) h k = ground arith
int_lt_neg_trans (pos m) (pos n) (negsuc o) h k = refl
int_lt_neg_trans (pos m) (negsuc n) (pos o) h k = ground arith
int_lt_neg_trans (pos m) (negsuc n) (negsuc o) h k = refl
int_lt_neg_trans (negsuc m) (pos n) (pos o) h k = ground arith
int_lt_neg_trans (negsuc m) (pos n) (negsuc o) h k = ground arith
int_lt_neg_trans (negsuc m) (negsuc n) (pos o) h k = ground arith
int_lt_neg_trans (negsuc m) (negsuc n) (negsuc o) h k = ground arith
