-- ===== src/Prelude/Sort.antt =====
-- sort.Slice and sort.SliceStable, as insertion sort. Where sort.Slice leaves the order of equal
-- elements open, so does the order in which the sorted elements come out of a map.
use mathlib.Core.Path.{◌≡◌, refl, ap₂, ◌∙◌}
use mathlib.Core.Bool.{Bool, true, false}
use mathlib.Core.Logic.{inl, inr, ∥∥₁_elim}
use mathlib.Core.List.{List, [], ◌∷◌, Perm, Permᴰ}
use mathlib.Core.List.Perm
use native.Mathlib.Omega.{arith}
use docker_in_kubernetes.Prelude.Tests.{Bool-cases}
use docker_in_kubernetes.Prelude.Lists.{All, All-imp}

module _ {ℓ} {A : Type ℓ} (less : A → A → Bool) where
  unfoldable pub insert_by : A → List A → List A
  insert_by x [] = x ∷ []
  insert_by x (y ∷ l) =
      let rest = insert_by x l in elim (less y x) [ true ↦ y ∷ rest | false ↦ x ∷ y ∷ l ]

  unfoldable pub sort_by : List A → List A
  sort_by [] = []
  sort_by (x ∷ l) = insert_by x (sort_by l)

  insert_by-perm : (x : A) (l : List A) → Perm (insert_by x l) (x ∷ l)
  unfolding insert_by
  insert_by-perm x [] = Perm.refl (x ∷ [])
  insert_by-perm x (y ∷ l) = elim (Bool-cases (less y x)) [
    | inl h ↦ rw (h, insert_by) (Perm.trans (Perm.cons y (insert_by-perm x l)) (Perm.swap x y l))
    | inr h ↦ rw (h, insert_by) (Perm.refl (x ∷ y ∷ l))
  ]

  -- The result holds the same elements.
  pub sort_by-perm : (l : List A) → Perm (sort_by l) l
  unfolding sort_by
  sort_by-perm [] = Perm.refl []
  sort_by-perm (x ∷ l) = Perm.trans (insert_by-perm x (sort_by l)) (Perm.cons x (sort_by-perm l))

  -- No later element is less than an earlier one.
  abbrev pub IsSorted : List A → Type 0
  IsSorted [] = Unit
  IsSorted (x ∷ l) = All (λ y. less y x ≡ false) l × IsSorted l

  -- What sort.Slice asks of its `less`: a strict weak order.
  pub record IsStrictWeak : Type ℓ where
    pub asym : (x y : A) → less x y ≡ true → less y x ≡ false
    pub neg_trans : (x y z : A) → less x y ≡ false → less y z ≡ false → less x z ≡ false

  insert_by-All : (P : A → Type 0) (x : A) (l : List A) → P x → All P l → All P (insert_by x l)
  unfolding insert_by
  insert_by-All P x [] h hs = (h, tt)
  insert_by-All P x (y ∷ l) h hs = elim (Bool-cases (less y x)) [
    | inl e ↦ rw (e, insert_by) (hs.0, insert_by-All P x l h hs.1)
    | inr e ↦ rw (e, insert_by) (h, hs)
  ]

  -- What holds of all elements holds of those of the result.
  pub sort_by-All : (P : A → Type 0) (l : List A) → All P l → All P (sort_by l)
  unfolding sort_by
  sort_by-All P [] h = tt
  sort_by-All P (x ∷ l) h = insert_by-All P x (sort_by l) h.0 (sort_by-All P l h.1)

  module _ (o : IsStrictWeak) where
    insert_by-IsSorted : (x : A) (l : List A) → IsSorted l → IsSorted (insert_by x l)
    unfolding insert_by
    insert_by-IsSorted x [] h = (tt, tt)
    insert_by-IsSorted x (y ∷ l) h = elim (Bool-cases (less y x)) [
      | inl e ↦
          rw (e, insert_by)
            (
              insert_by-All (λ z. less z y ≡ false) x l (o.asym y x e) h.0,
              insert_by-IsSorted x l h.1,
            )
      | inr e ↦ rw (e, insert_by) ((e, All-imp (λ z below. o.neg_trans z y x below e) l h.0), h)
    ]

    -- The result is in order.
    pub sort_by-IsSorted : (l : List A) → IsSorted (sort_by l)
    unfolding sort_by
    sort_by-IsSorted [] = tt
    sort_by-IsSorted (x ∷ l) = insert_by-IsSorted x (sort_by l) (sort_by-IsSorted l)

    -- Where only equal elements are incomparable, the order of the input does not matter.
    module _ (total : (x y : A) → less x y ≡ false → less y x ≡ false → x ≡ y) where
      insert_by_comm :
          (x y : A) (l : List A) → insert_by x (insert_by y l) ≡ insert_by y (insert_by x l)
      unfolding insert_by
      insert_by_comm x y [] = ground (arith, o.asym x y, o.asym y x, total x y)
      insert_by_comm x y (z ∷ l) = ground (
        arith,
        insert_by_comm x y l,
        o.asym x y,
        o.asym y x,
        o.asym z x,
        o.asym z y,
        total x y,
        o.neg_trans z x y,
        o.neg_trans z y x,
        o.neg_trans x y z,
        o.neg_trans y x z,
      )

      sort_by-eq_of_permᴰ : {l m : List A} → Permᴰ l m → sort_by l ≡ sort_by m
      unfolding sort_by
      sort_by-eq_of_permᴰ Permᴰ.nil = refl
      sort_by-eq_of_permᴰ (Permᴰ.cons e p) = ap₂ insert_by e (sort_by-eq_of_permᴰ p)
      sort_by-eq_of_permᴰ (Permᴰ.swap {a} {b} {l} e f) =
          insert_by_comm a b (sort_by l) ∙ ap₂ (λ x y. insert_by x (insert_by y (sort_by l))) f e
      sort_by-eq_of_permᴰ (Permᴰ.trans p q) = sort_by-eq_of_permᴰ p ∙ sort_by-eq_of_permᴰ q

      pub sort_by-eq_of_perm : IsSet (List A) → {l m : List A} → Perm l m → sort_by l ≡ sort_by m
      sort_by-eq_of_perm set p = ∥∥₁_elim p (set _ _) sort_by-eq_of_permᴰ

module _ {ℓ κ} {A : Type ℓ} (P : A → Type κ) (less : A → A → Bool) where
  All-insert_by : (x : A) (l : List A) → P x → All P l → All P (insert_by less x l)
  unfolding insert_by
  All-insert_by x [] p h = (p, tt)
  All-insert_by x (y ∷ l) p h = elim (Bool-cases (less y x)) [
    | inl e ↦ rw (e, insert_by) (h.0, All-insert_by x l p h.1)
    | inr e ↦ rw (e, insert_by) (p, h)
  ]

  pub All-sort_by : (l : List A) → All P l → All P (sort_by less l)
  unfolding sort_by
  All-sort_by [] h = tt
  All-sort_by (x ∷ l) h = All-insert_by x (sort_by less l) h.0 (All-sort_by l h.1)
