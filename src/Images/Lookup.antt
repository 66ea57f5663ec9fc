-- ===== src/Images/Lookup.antt =====
-- Looking up what was pulled (internal/images/store.go).
use docker_in_kubernetes.Prelude.{
  ℕ, ◌≡◌, ◌≢◌, refl, true, false, none, some, List, [], ◌∷◌, ◌++◌, Text, text, arith, contains,
  contains_any, lookup, cut_prefix, trim_prefix, lookup-insert_self, All,
}
use docker_in_kubernetes.Images.{
  Store, hub_prefixes, strip_first, canonical_ref, record_pull, find, find_by_id_prefix, is_hex,
}

-- No prefix of Docker Hub stands in front.
abbrev pub IsShort : Text → Type 0
IsShort ref = All (λ p. cut_prefix ref p ≡ none) hub_prefixes

strip_first_short :
    (ps : List Text) (ref : Text) → All (λ p. cut_prefix ref p ≡ none) ps → strip_first ps ref ≡ ref
unfolding strip_first
strip_first_short [] ref h = refl
strip_first_short (p ∷ ps) ref h = rw (h.0, strip_first) (strip_first_short ps ref h.1)

pub canonical_ref_short : (ref : Text) → IsShort ref → canonical_ref ref ≡ ref
unfolding canonical_ref
canonical_ref_short ref h = strip_first_short hub_prefixes ref h

-- The three ways of naming an image of Docker Hub's library stand for the same reference, and a
-- short reference for itself.
pub canonical_ref_lem :
    (name : Text)
    → IsShort name
    → (canonical_ref name ≡ name)
      × (canonical_ref (text "library/" ++ name) ≡ name)
      × (canonical_ref (text "docker.io/library/" ++ name) ≡ name)
      × (canonical_ref (text "index.docker.io/library/" ++ name) ≡ name)
unfolding canonical_ref cut_prefix text
canonical_ref_lem name h = (strip_first_short hub_prefixes name h, refl, refl, refl)

contains_any_colon : (s : Text) → contains s b':' ≡ true → contains_any s (text ":@") ≡ true
unfolding contains contains_any text
contains_any_colon [] h = cc
contains_any_colon (a ∷ s) h = ground (arith, contains_any_colon s)

module _ (sha256_hex : Text → Text) where
  -- What was pulled is found again under the reference that was asked for.
  pub find-record_pull :
      (s : Store) (ref tag : Text) (now : ℕ)
      → ref ≢ []
      → let (s', r) = record_pull s ref tag now in find sha256_hex s' ref ≡ some r
  unfolding find record_pull
  find-record_pull s [] tag now h = absurd (h refl)
  find-record_pull s (c ∷ ref) tag now h =
      ground (
        arith,
        lookup-insert_self (canonical_ref (c ∷ ref)) (record_pull s (c ∷ ref) tag now).1 s.m,
      )

  -- A name with a colon is looked up as it stands, and then by ID only.
  pub find_colon :
      (s : Store) (c : ℕ) (name : Text)
      → IsShort (c ∷ name)
      → contains (c ∷ name) b':' ≡ true
      → is_hex (trim_prefix (c ∷ name) (text "sha256:")) ≡ false
      → lookup (c ∷ name) s.m ≡ none
      → find sha256_hex s (c ∷ name) ≡ none
  unfolding find find_by_id_prefix
  find_colon s c name short colon no_id absent =
      ground (arith, canonical_ref_short (c ∷ name) short, contains_any_colon (c ∷ name) colon)
