-- ===== src/Images.antt =====
-- internal/images/store.go: the record of the images that were asked for. The store's map is an
-- association list whose order stands for the order of `range`; the mutex makes each method one
-- step. The hex digest of crypto/sha256 is a parameter.
pub mod Wellformed
pub mod Lookup
pub mod Prefix
pub mod Order
use docker_in_kubernetes.Prelude.{
  ℕ, suc, ◌+◌, ◌≡◌, Bool, true, false, not, ◌&&◌, ◌||◌, Option, none, some, List, [], ◌∷◌, ◌++◌,
  map, Text, text, length, ltb, leb, ◌==◌, if◌then◌else◌, cut_prefix, trim_prefix, has_prefix,
  contains_any, Dict, lookup, insert, delete, sort_by,
}

-- Times are instants, as numbers.
pub record Record : Type 0 where
  pub ref : Text
  pub tag : Text
  pub pulled_at : ℕ

pub record Store : Type 0 where
  pub m : Dict Record

abbrev pub new : Store
new = record { m = [] }

abbrev pub hub_prefixes : List Text
hub_prefixes =
    text "docker.io/library/"
    ∷ text "index.docker.io/library/"
    ∷ text "docker.io/"
    ∷ text "index.docker.io/"
    ∷ text "library/"
    ∷ []

-- The loop of canonicalRef.
strip_first : List Text → Text → Text
strip_first [] ref = ref
strip_first (p ∷ ps) ref = elim (cut_prefix ref p) [ some rest ↦ rest | none ↦ strip_first ps ref ]

unfoldable pub canonical_ref : Text → Text
unfolding strip_first
canonical_ref ref = strip_first hub_prefixes ref

unfoldable pub is_hex : Text → Bool
is_hex [] = true
is_hex (c ∷ s) =
    (leb b'0' c && leb c b'9' || leb b'a' c && leb c b'f' || leb b'A' c && leb c b'F') && is_hex s

-- Method Record: the store after it, and the stored copy.
unfoldable pub record_pull : Store → Text → Text → ℕ → Store × Record
record_pull s ref tag now =
    let key : Text = canonical_ref ref in
    let r : Record = record { ref = key; tag = tag; pulled_at = now } in
    (record { m = insert key r s.m }, r)

abbrev pub newer : Record → Record → Bool
newer a b = ltb b.pulled_at a.pulled_at

unfoldable pub values : Dict Record → List Record
values m = map (λ e. e.1) m

unfoldable pub list : Store → List Record
unfolding values
list s = sort_by newer (values s.m)

unfoldable pub has : Store → Text → Bool
has s ref = elim (lookup (canonical_ref ref) s.m) [ some r ↦ true | none ↦ false ]

-- The second lookup of Find and Remove: a name with no tag or digest stands for its latest tag.
with_latest : Dict Record → Text → Option Record
with_latest m name =
    if not (contains_any name (text ":@")) then lookup (name ++ text ":latest") m else none

module _ (sha256_hex : Text → Text) where
  unfoldable pub record_id : Record → Text
  record_id r = text "sha256:" ++ sha256_hex r.ref

  -- The test in the loop of findByIDPrefix.
  unfoldable pub id_matches : Text → Record → Bool
  id_matches prefix r = has_prefix (trim_prefix (record_id r) (text "sha256:")) prefix

  -- The loop of findByIDPrefix: the last hit, and the number of hits.
  unfoldable pub count_hits : Text → Dict Record → Option Record × ℕ → Option Record × ℕ
  count_hits prefix [] found = found
  count_hits prefix ((k, r) ∷ m) found =
      count_hits prefix m (if id_matches prefix r then (some r, suc found.1) else found)

  unfoldable pub find_by_id_prefix : Dict Record → Text → Option Record
  find_by_id_prefix m name =
      let prefix : Text = trim_prefix name (text "sha256:") in
      if ltb (length prefix) 4 || not (is_hex prefix)
      then none
      else let found : Option Record × ℕ = count_hits prefix m (none, 0) in
        if found.1 == 1 then found.0 else none

  unfoldable pub find : Store → Text → Option Record
  unfolding with_latest
  find s [] = none
  find s (c ∷ ref) =
      let name : Text = canonical_ref (c ∷ ref) in
      elim (lookup name s.m) [
        | some r ↦ some r
        | none ↦ elim (with_latest s.m name) [ some r ↦ some r | none ↦ find_by_id_prefix s.m name ]
      ]

  -- The record that was removed, and the store after it.
  unfoldable pub remove : Store → Text → Option (Record × Store)
  unfolding with_latest
  remove s [] = none
  remove s (c ∷ ref) =
      let name : Text = canonical_ref (c ∷ ref) in
      elim (lookup name s.m) [
        | some r ↦ some (r, record { m = delete r.ref s.m })
        | none ↦ elim (with_latest s.m name) [
          | some r ↦ some (r, record { m = delete r.ref s.m })
          | none ↦ elim (find_by_id_prefix s.m name) [
            | some r ↦ some (r, record { m = delete r.ref s.m })
            | none ↦ none
          ]
        ]
      ]
