-- ===== src/Prelude/Maps.antt =====
-- Go maps with string keys, as association lists. The order of the entries stands for the order in
-- which `range` visits them, which Go leaves open.
use mathlib.Core.Path.{◌≡◌, refl, subst, subst₂}
use mathlib.Core.Logic.{◌≢◌, inl, inr}
use mathlib.Core.List.{List, [], ◌∷◌}
use mathlib.Core.Option.{Option, none, some}
use native.Mathlib.Omega.{arith}
use docker_in_kubernetes.Prelude.Tests.{Bool-cases, if◌then◌else◌}
use docker_in_kubernetes.Prelude.Lists.{All}
use docker_in_kubernetes.Prelude.Strings.{Text, text_eq, text_eq_iff, text_eq_refl}

abbrev pub Dict {ℓ} : Type ℓ → Type ℓ
Dict V = List (Text × V)

module _ {ℓ} {V : Type ℓ} where
  -- `v, ok := m[k]`
  unfoldable pub lookup : Text → Dict V → Option V
  lookup k [] = none
  lookup k ((j, v) ∷ m) = if text_eq j k then some v else lookup k m

  -- `m[k] = v`
  unfoldable pub insert : Text → V → Dict V → Dict V
  insert k v [] = (k, v) ∷ []
  insert k v ((j, w) ∷ m) = if text_eq j k then (k, v) ∷ m else (j, w) ∷ insert k v m

  -- `delete(m, k)`
  unfoldable pub delete : Text → Dict V → Dict V
  delete k [] = []
  delete k ((j, w) ∷ m) = let rest = delete k m in if text_eq j k then rest else (j, w) ∷ rest

  pub lookup-insert :
      (k j : Text) (v : V) (m : Dict V)
      → lookup j (insert k v m) ≡ (if text_eq k j then some v else lookup j m)
  unfolding lookup insert
  lookup-insert k j v [] = refl
  lookup-insert k j v ((i, w) ∷ m) =
      ground (arith, text_eq_iff k j, text_eq_iff i k, text_eq_iff i j, lookup-insert k j v m)

  pub lookup-delete :
      (k j : Text) (m : Dict V) → lookup j (delete k m) ≡ (if text_eq k j then none else lookup j m)
  unfolding lookup delete
  lookup-delete k j [] = ground arith
  lookup-delete k j ((i, w) ∷ m) =
      ground (arith, text_eq_iff k j, text_eq_iff i k, text_eq_iff i j, lookup-delete k j m)

  pub lookup-insert_self : (k : Text) (v : V) (m : Dict V) → lookup k (insert k v m) ≡ some v
  lookup-insert_self k v m = simp (lookup-insert, text_eq_refl)

  pub lookup-delete_self : (k : Text) (m : Dict V) → lookup k (delete k m) ≡ none
  lookup-delete_self k m = simp (lookup-delete, text_eq_refl)

  -- No key stands twice.
  abbrev pub Distinct : Dict V → Type 0
  Distinct [] = Unit
  Distinct ((k, v) ∷ m) = All (λ e. e.0 ≢ k) m × Distinct m

  module _ (P : Text × V → Type 0) where
    pub All-insert : (k : Text) (v : V) (m : Dict V) → P (k, v) → All P m → All P (insert k v m)
    unfolding insert
    All-insert k v [] h hs = (h, tt)
    All-insert k v ((j, w) ∷ m) h hs = ground (arith, All-insert k v m h hs.1)

    pub All-delete : (k : Text) (m : Dict V) → All P m → All P (delete k m)
    unfolding delete
    All-delete k [] hs = tt
    All-delete k ((j, w) ∷ m) hs = ground (arith, All-delete k m hs.1)

    pub lookup-All : (k : Text) (m : Dict V) (v : V) → All P m → lookup k m ≡ some v → P (k, v)
    unfolding lookup
    lookup-All k [] v hs e = cc
    lookup-All k ((j, w) ∷ m) v hs e = elim (Bool-cases (text_eq j k)) [
      | inl same ↦ subst₂ (λ x y. P (x, y)) ((text_eq_iff j k).0 same) (ground arith) hs.0
      | inr other ↦ lookup-All k m v hs.1 (ground arith)
    ]

  pub Distinct-insert : (k : Text) (v : V) (m : Dict V) → Distinct m → Distinct (insert k v m)
  unfolding insert
  Distinct-insert k v [] d = (tt, tt)
  Distinct-insert k v ((j, w) ∷ m) d = elim (Bool-cases (text_eq j k)) [
    | inl same ↦
        rw (same, insert) (subst (λ x. All (λ e. e.0 ≢ x) m) ((text_eq_iff j k).0 same) d.0, d.1)
    | inr other ↦
        rw (other, insert)
          (
            All-insert (λ e. e.0 ≢ j) k v m (λ e. ground (arith, text_eq_iff j k)) d.0,
            Distinct-insert k v m d.1,
          )
  ]

  pub Distinct-delete : (k : Text) (m : Dict V) → Distinct m → Distinct (delete k m)
  unfolding delete
  Distinct-delete k [] d = tt
  Distinct-delete k ((j, w) ∷ m) d =
      ground (arith, Distinct-delete k m d.1, All-delete (λ e. e.0 ≢ j) k m d.0)
