-- ===== src/Server/Router/Paths.antt =====
-- internal/server/server.go: a path and its segments.
use docker_in_kubernetes.Prelude.{
  Bool, true, false, not, ◌&&◌, List, [], ◌∷◌, ◌++◌, append-nil, inl, inr, Text, text, text_eq,
  contains, ◌≡◌, refl, ap, ◌∙◌, All, arith, Bool-cases, ◌==◌,
}
use docker_in_kubernetes.Server.Router.Routes.{is_clean, split_slashes}

-- A segment that stands in a path as it is.
unfoldable pub is_plain : Text → Bool
is_plain [] = false
is_plain (c ∷ s) =
    not (text_eq (c ∷ s) (text "."))
    && not (text_eq (c ∷ s) (text ".."))
    && not (contains (c ∷ s) b'/')

abbrev pub Plain : List Text → Type 0
Plain ss = All (λ s. is_plain s ≡ true) ss

pub is_clean-Plain : (ss : List Text) → Plain ss → is_clean ss ≡ true
unfolding is_clean is_plain
is_clean-Plain [] h = refl
is_clean-Plain ([] ∷ ss) h = ground (arith, h.0)
is_clean-Plain ((c ∷ s) ∷ ss) h = ground (arith, h.0, is_clean-Plain ss h.1)

-- The path of some segments.
unfoldable pub path_of : List Text → Text
path_of [] = []
path_of (s ∷ ss) = b'/' ∷ (s ++ path_of ss)

split_slashes-one : (s : Text) → contains s b'/' ≡ false → split_slashes s ≡ s ∷ []
unfolding split_slashes contains
split_slashes-one [] h = refl
split_slashes-one (c ∷ s) h = ground (arith, split_slashes-one s)

split_slashes-ne : (s : Text) → (t : Text) × (ts : List Text) × (split_slashes s ≡ t ∷ ts)
unfolding split_slashes
split_slashes-ne [] = ([], [], refl)
split_slashes-ne (c ∷ s) =
    let (t, ts, e) = split_slashes-ne s in
    elim (Bool-cases (c == b'/')) [
      | inl h ↦ ([], t ∷ ts, ground (arith, e, h))
      | inr h ↦ (c ∷ t, ts, ground (arith, e, h))
    ]

split_slashes-append :
    (s rest : Text)
    → contains s b'/' ≡ false
    → split_slashes (s ++ b'/' ∷ rest) ≡ s ∷ split_slashes rest
unfolding split_slashes contains
split_slashes-append [] rest h = let (t, ts, e) = split_slashes-ne rest in ground (arith, e)
split_slashes-append (c ∷ s) rest h = ground (arith, split_slashes-append s rest)

is_plain-contains : (s : Text) → is_plain s ≡ true → contains s b'/' ≡ false
unfolding is_plain
is_plain-contains [] h = ground arith
is_plain-contains (c ∷ s) h = ground (arith, h)

pub split_slashes-path_of :
    (s : Text) (ss : List Text) → Plain (s ∷ ss) → split_slashes (s ++ path_of ss) ≡ s ∷ ss
unfolding path_of
split_slashes-path_of s [] (h, hs) = rw append-nil (split_slashes-one s (is_plain-contains s h))
split_slashes-path_of s (t ∷ ss) (h, hs) =
    split_slashes-append s (t ++ path_of ss) (is_plain-contains s h)
    ∙ ap (λ r. s ∷ r) (split_slashes-path_of t ss hs)
