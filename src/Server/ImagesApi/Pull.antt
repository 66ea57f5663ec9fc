-- ===== src/Server/ImagesApi/Pull.antt =====
-- docker pull followed by an inspection or a removal (internal/server/images.go).
use docker_in_kubernetes.Prelude.{
  ℕ, ◌≡◌, ◌≢◌, true, false, none, [], ◌∷◌, ◌++◌, Text, text, arith, contains, lookup, lookup-insert,
  ◌∙◌, text_eq-append, trim_prefix,
}
use docker_in_kubernetes.Images.{Store, canonical_ref, record_pull, is_hex}
use docker_in_kubernetes.Images.Lookup.{IsShort, find-record_pull, find_colon, canonical_ref_short}
use docker_in_kubernetes.Server.Reply.{json}
use docker_in_kubernetes.Server.ImagesApi.{build_ref, create, inspect, summary}

-- The reference that a pull of an image records.
build_ref-ne-nil : (c : ℕ) (from tag : Text) → build_ref (c ∷ from) tag ≢ []
unfolding build_ref
build_ref-ne-nil c from tag e = ground arith

-- A pull with no tag leaves the lookup of the bare name as it was.
lookup_after :
    (s : Store) (c : ℕ) (name : Text) (now : ℕ)
    → IsShort ((c ∷ name) ++ text ":latest")
    → contains (c ∷ name) b'@' ≡ false
    → lookup (c ∷ name) (create s (c ∷ name) [] now).0.m ≡ lookup (c ∷ name) s.m
unfolding create build_ref record_pull text
lookup_after s c name now short no_at = ground (
  arith,
  canonical_ref_short ((c ∷ name) ++ text ":latest") short,
  text_eq-append (c ∷ name) b':' (text "latest"),
  lookup-insert ((c ∷ name) ++ text ":latest") (c ∷ name)
      (record_pull s (build_ref (c ∷ name) []) [] now).1 s.m,
)

module _ (sha256_hex : Text → Text) where
  -- After a pull, the reference that was recorded, tag included, can be inspected: the answer is the
  -- record of this pull.
  pub inspect-create :
      (s : Store) (c : ℕ) (from tag : Text) (now : ℕ)
      → let ref : Text = build_ref (c ∷ from) tag in
        inspect sha256_hex (create s (c ∷ from) tag now).0 ref ≡ record {
          status = 200;
          body =
              json (
                summary sha256_hex
                  (record { ref = canonical_ref ref; tag = tag; pulled_at = now }));
        }
  unfolding inspect create record_pull
  inspect-create s c from tag now = ground (
    arith,
    find-record_pull sha256_hex s (build_ref (c ∷ from) tag) tag now (build_ref-ne-nil c from tag),
  )

  -- An image of a registry whose address carries a port, pulled with no tag, cannot be inspected
  -- under the name that it was pulled by.
  pub inspect-create_port :
      (s : Store) (c : ℕ) (name : Text) (now : ℕ)
      → IsShort (c ∷ name)
      → IsShort ((c ∷ name) ++ text ":latest")
      → contains (c ∷ name) b':' ≡ true
      → contains (c ∷ name) b'@' ≡ false
      → is_hex (trim_prefix (c ∷ name) (text "sha256:")) ≡ false
      → lookup (c ∷ name) s.m ≡ none
      → (inspect sha256_hex (create s (c ∷ name) [] now).0 (c ∷ name)).status ≡ 404
  unfolding inspect create build_ref record_pull
  inspect-create_port s c name now short short_latest colon no_at no_id absent =
      let s' : Store = (create s (c ∷ name) [] now).0 in
      let missing =
        find_colon sha256_hex s' c name short colon no_id
          (lookup_after s c name now short_latest no_at ∙ absent) in
      ground (arith, missing)
