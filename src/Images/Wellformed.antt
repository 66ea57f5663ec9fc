-- ===== src/Images/Wellformed.antt =====
-- The invariant of the image store, and that Find and Remove agree (internal/images/store.go).
use docker_in_kubernetes.Prelude.{
  Bool-cases, trim_prefix, text, filter, ◌++◌, ℕ, ◌≡◌, refl, ◌≢◌, inl, inr, Option, none, some,
  List, [], ◌∷◌, Text, All, arith, text_eq, if◌then◌else◌, Dict, lookup, delete, text_eq_iff,
  Option-cases, Distinct, lookup-delete, All-insert, Distinct-insert, All-delete, Distinct-delete,
  lookup-All,
}
use docker_in_kubernetes.Images.{
  Record, Store, new, canonical_ref, record_pull, with_latest, find_by_id_prefix, find, remove,
  values, id_matches,
}
use docker_in_kubernetes.Images.Prefix.{single, hits, find_by_id_prefix_lem}

-- Every record stands under its own reference, and no key stands twice.
pub record IsWellformed (s : Store) : Type 0 where
  pub keyed : All (λ e. e.0 ≡ e.1.ref) s.m
  pub distinct : Distinct s.m

pub new-IsWellformed : IsWellformed new
new-IsWellformed = record { keyed = tt; distinct = tt }

-- Recording a pull keeps the store well formed.
pub record_pull-IsWellformed :
    (s : Store) (ref tag : Text) (now : ℕ)
    → IsWellformed s
    → IsWellformed (record_pull s ref tag now).0
unfolding record_pull
record_pull-IsWellformed s ref tag now w = record {
  keyed = All-insert (λ e. e.0 ≡ e.1.ref) _ _ s.m refl w.keyed;
  distinct = Distinct-insert _ _ s.m w.distinct;
}

single-eq-some : (x r : Record) (l : List Record) → single (x ∷ l) ≡ some r → x ≡ r
single-eq-some x r [] h = cc
single-eq-some x r (y ∷ l) h = cc

module _ (sha256_hex : Text → Text) where
  -- Remove removes the record that Find finds, under the record's own reference, and fails exactly
  -- when Find fails.
  pub remove-find :
      (s : Store) (name : Text)
      → remove sha256_hex s name ≡ elim (find sha256_hex s name) as (λ _. Option (Record × Store)) [
        | some r ↦ some (r, record { m = delete r.ref s.m })
        | none ↦ none
      ]
  unfolding find remove
  remove-find s [] = refl
  remove-find s (c ∷ ref) = ground arith

  single-hits_stored :
      (prefix : Text) (m : Dict Record) (r : Record)
      → All (λ e. e.0 ≡ e.1.ref) m
      → Distinct m
      → single (hits sha256_hex prefix m) ≡ some r
      → lookup r.ref m ≡ some r
  unfolding hits values lookup filter
  single-hits_stored prefix [] r keyed distinct h = cc
  single-hits_stored prefix ((k, x) ∷ m) r keyed distinct h =
      elim (Bool-cases (id_matches sha256_hex prefix x)) [
        | inl hit ↦
            let e = single-eq-some x r (hits sha256_hex prefix m) (ground arith) in
            ground (arith, text_eq_iff k r.ref)
        | inr miss ↦
            let stored = single-hits_stored prefix m r keyed.1 distinct.1 (ground arith) in
            ground
              (arith, text_eq_iff k r.ref, lookup-All (λ e. e.0 ≢ k) r.ref m r distinct.0 stored)
      ]

  find_by_id_prefix_stored :
      (s : Store) (name : Text) (r : Record)
      → IsWellformed s
      → find_by_id_prefix sha256_hex s.m name ≡ some r
      → lookup r.ref s.m ≡ some r
  find_by_id_prefix_stored s name r w h =
      let prefix : Text = trim_prefix name (text "sha256:") in
      single-hits_stored prefix s.m r w.keyed w.distinct
        (ground (arith, find_by_id_prefix_lem sha256_hex s.m name))

  -- Whatever Find finds in a well-formed store stands there under its own reference.
  pub find_stored :
      (s : Store) (name : Text) (r : Record)
      → IsWellformed s
      → find sha256_hex s name ≡ some r
      → lookup r.ref s.m ≡ some r
  unfolding find with_latest
  find_stored s [] r w h = cc
  find_stored s (c ∷ ref) r w h =
      let name : Text = canonical_ref (c ∷ ref) in
      ground (
        arith,
        find_by_id_prefix_stored s name r w,
        lookup-All (λ e. e.0 ≡ e.1.ref) name s.m r w.keyed,
        lookup-All (λ e. e.0 ≡ e.1.ref) (name ++ text ":latest") s.m r w.keyed,
      )

  -- A removal that succeeds takes away one record of a well-formed store, the one that Find finds:
  -- every other reference keeps its record, and the store stays well formed.
  pub remove_lem :
      (s : Store) (name : Text) (r : Record) (s' : Store)
      → IsWellformed s
      → remove sha256_hex s name ≡ some (r, s')
      → (find sha256_hex s name ≡ some r)
        × (lookup r.ref s.m ≡ some r)
        × ((k : Text) → lookup k s'.m ≡ (if text_eq r.ref k then none else lookup k s.m))
        × IsWellformed s'
  remove_lem s name r s' w h = elim (Option-cases (find sha256_hex s name)) [
    | inl missing ↦ absurd (ground (arith, remove-find s name))
    | inr (x, found) ↦
        let removed : Record × Store = (x, record { m = delete x.ref s.m }) in
        let e : some removed ≡ some (r, s') = ground (arith, remove-find s name) in
        let same : x ≡ r = ground arith in
        let after : s'.m ≡ delete r.ref s.m = ground arith in
        (
          ground (arith, found, same),
          ground (arith, find_stored s name x w found),
          (λ k. rw after (lookup-delete r.ref k s.m)),
          record {
            keyed = rw after (All-delete (λ e. e.0 ≡ e.1.ref) r.ref s.m w.keyed);
            distinct = rw after (Distinct-delete r.ref s.m w.distinct);
          },
        )
  ]
