-- ===== src/Images/Prefix.antt =====
-- The lookup by a prefix of the image ID (findByIDPrefix of internal/images/store.go).
use mathlib.Core.Logic.{∥∥₁_elim}
use mathlib.Core.List.Permᴰ
use mathlib.Core.Path.{subst₂}
use mathlib.Core.List.{Permᴰ}
use docker_in_kubernetes.Prelude.{
  ℕ, suc, ◌+◌, ◌≡◌, refl, sym, ap, ◌∙◌, inl, inr, Bool, not, ◌||◌, Option, none, some, List, [],
  ◌∷◌, Perm, Text, text, length, arith, if◌then◌else◌, ltb, ◌==◌, Dict, trim_prefix, Bool-cases,
  filter,
}
use docker_in_kubernetes.Images.{Record, count_hits, find_by_id_prefix, id_matches, is_hex, values}

-- The single element of a list.
abbrev pub single {ℓ} : {A : Type ℓ} → List A → Option A
single [] = none
single (x ∷ []) = some x
single (x ∷ y ∷ l) = none

length-permᴰ {ℓ} : {A : Type ℓ} {l m : List A} → Permᴰ l m → length l ≡ length m
length-permᴰ Permᴰ.nil = refl
length-permᴰ (Permᴰ.cons e p) = ap suc (length-permᴰ p)
length-permᴰ (Permᴰ.swap e f) = refl
length-permᴰ (Permᴰ.trans p q) = length-permᴰ p ∙ length-permᴰ q

single-cons {ℓ} :
    {A : Type ℓ} {a b : A} (l m : List A)
    → a ≡ b
    → length l ≡ length m
    → single (a ∷ l) ≡ single (b ∷ m)
single-cons [] [] e h = ap some e
single-cons [] (y ∷ m) e h = absurd (omega arith)
single-cons (x ∷ l) [] e h = absurd (omega arith)
single-cons (x ∷ l) (y ∷ m) e h = refl

single-permᴰ {ℓ} : {A : Type ℓ} {l m : List A} → Permᴰ l m → single l ≡ single m
single-permᴰ Permᴰ.nil = refl
single-permᴰ (Permᴰ.cons {l₁} {l₂} e p) = single-cons l₁ l₂ e (length-permᴰ p)
single-permᴰ (Permᴰ.swap e f) = refl
single-permᴰ (Permᴰ.trans p q) = single-permᴰ p ∙ single-permᴰ q

module _ {ℓ} {A : Type ℓ} (p : A → Bool) where
  filter-swap : (a b : A) (l : List A) → Permᴰ (filter p (a ∷ b ∷ l)) (filter p (b ∷ a ∷ l))
  unfolding filter
  filter-swap a b l = ground (
    arith,
    Permᴰ.swap {a = a} {b = b} {a' = b} {b' = a} {l = filter p l} refl refl,
    Permᴰ.refl (filter p l),
    Permᴰ.refl (a ∷ filter p l),
    Permᴰ.refl (b ∷ filter p l),
  )

  filter-permᴰ : {l m : List A} → Permᴰ l m → Permᴰ (filter p l) (filter p m)
  unfolding filter
  filter-permᴰ Permᴰ.nil = Permᴰ.nil
  filter-permᴰ (Permᴰ.cons {a} {b} {l₁} {l₂} e q) = elim (Bool-cases (p a)) [
    | inl h ↦ rw (h, filter, ap p (sym e) ∙ h) (Permᴰ.cons e (filter-permᴰ q))
    | inr h ↦ rw (h, filter, ap p (sym e) ∙ h) (filter-permᴰ q)
  ]
  filter-permᴰ (Permᴰ.swap {a} {b} {l} e f) =
      subst₂ (λ x y. Permᴰ (filter p (a ∷ b ∷ l)) (filter p (x ∷ y ∷ l))) f e (filter-swap a b l)
  filter-permᴰ (Permᴰ.trans q r) = Permᴰ.trans (filter-permᴰ q) (filter-permᴰ r)

last_or {ℓ} : {A : Type ℓ} → Option A → List A → Option A
last_or o [] = o
last_or o (r ∷ l) = last_or (some r) l

last_or-single {ℓ} :
    {A : Type ℓ} (l : List A) → (if length l == 1 then last_or none l else none) ≡ single l
unfolding last_or
last_or-single [] = refl
last_or-single (x ∷ []) = refl
last_or-single (x ∷ y ∷ l) = ground arith

Option-Record-set : IsSet (Option Record)
Option-Record-set = hlevel

module _ (sha256_hex : Text → Text) where
  -- The records whose ID has the prefix.
  unfoldable pub hits : Text → Dict Record → List Record
  unfolding values
  hits prefix m = filter (id_matches sha256_hex prefix) (values m)

  count_hits_lem :
      (prefix : Text) (m : Dict Record) (o : Option Record) (n : ℕ)
      → count_hits sha256_hex prefix m (o, n)
        ≡ (last_or o (hits prefix m), n + length (hits prefix m))
  unfolding count_hits hits last_or filter
  count_hits_lem prefix [] o n = ground arith
  count_hits_lem prefix ((k, r) ∷ m) o n =
      ground (arith, count_hits_lem prefix m (some r) (suc n), count_hits_lem prefix m o n)

  -- The lookup by ID answers a record exactly when the prefix has four hex digits or more and that
  -- record alone has it.
  pub find_by_id_prefix_lem :
      (m : Dict Record) (name : Text)
      → let prefix : Text = trim_prefix name (text "sha256:") in
        find_by_id_prefix sha256_hex m name
        ≡ (if ltb (length prefix) 4 || not (is_hex prefix) then none else single (hits prefix m))
  unfolding find_by_id_prefix
  find_by_id_prefix_lem m name =
      let prefix : Text = trim_prefix name (text "sha256:") in
      rw (count_hits_lem prefix m none 0) (ground (arith, last_or-single (hits prefix m)))

  hits-permᴰ :
      (prefix : Text) {m m' : Dict Record} → Permᴰ m m' → Permᴰ (hits prefix m) (hits prefix m')
  unfolding hits values
  hits-permᴰ prefix p = filter-permᴰ (id_matches sha256_hex prefix) (Permᴰ.map _ p)

  -- The answer does not depend on the order in which the map is visited.
  pub find_by_id_prefix-perm :
      (m m' : Dict Record) (name : Text)
      → Perm m m'
      → find_by_id_prefix sha256_hex m name ≡ find_by_id_prefix sha256_hex m' name
  find_by_id_prefix-perm m m' name p =
      let prefix : Text = trim_prefix name (text "sha256:") in
      rw (find_by_id_prefix_lem m name, find_by_id_prefix_lem m' name)
        (∥∥₁_elim p (Option-Record-set _ _) (λ q.
          ap (λ o. if ltb (length prefix) 4 || not (is_hex prefix) then none else o)
            (single-permᴰ (hits-permᴰ prefix q))))
