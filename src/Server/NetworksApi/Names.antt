-- ===== src/Server/NetworksApi/Names.antt =====
-- What a client sees of a network's name over a create and a delete (internal/server/networks.go).
use docker_in_kubernetes.Prelude.{
  ◌⊎◌, inr, ◌↔◌, ℕ, ◌≡◌, ◌≢◌, refl, [], ◌∷◌, Text, arith, Dict, lookup-insert_self,
  lookup-delete_self,
}
use docker_in_kubernetes.Networks.{Network, record_network, has, remove}
use docker_in_kubernetes.Server.NetworksApi.{
  NetworkCreateRequest, create, create_named, inspect, delete_network,
}

module _ (sha256_hex : Text → Text) where
  created_iff :
      (m : Dict Network) (name : Text) (req : NetworkCreateRequest) (now : ℕ)
      → ((create_named sha256_hex m name req now).1.status ≡ 201)
        ↔ ((name ≢ []) × ((inspect sha256_hex m name).status ≡ 404))
  unfolding create_named inspect has
  created_iff m [] req now = ground arith
  created_iff m (c ∷ name) req now = ground arith

  kept_or_created :
      (m : Dict Network) (name : Text) (req : NetworkCreateRequest) (now : ℕ)
      → let (m', reply) = create_named sha256_hex m name req now in (reply.status ≡ 201) ⊎ (m' ≡ m)
  unfolding create_named has
  kept_or_created m [] req now = inr refl
  kept_or_created m (c ∷ name) req now = ground arith

  -- A network is created exactly when its name is not empty and inspecting the name answers 404, and
  -- a create that is refused leaves the store as it was.
  pub create_iff :
      (m : Dict Network) (req : NetworkCreateRequest) (now : ℕ)
      → let (m', reply) = create sha256_hex m (inr req) now in
        ((reply.status ≡ 201) ↔ ((req.name ≢ []) × ((inspect sha256_hex m req.name).status ≡ 404)))
        × ((reply.status ≡ 201) ⊎ (m' ≡ m))
  unfolding create
  create_iff m req now = (created_iff m req.name req now, kept_or_created m req.name req now)

  taken :
      (m : Dict Network) (name : Text) (req again : NetworkCreateRequest) (now later : ℕ)
      → name ≢ []
      → (create_named sha256_hex
          (create_named sha256_hex m name req now).0
          name
          again
          later).1.status
        ≡ 409
  unfolding create_named has record_network
  taken m [] req again now later h = absurd (h refl)
  taken m (c ∷ name) req again now later h = ground (
    arith,
    lookup-insert_self (c ∷ name) (record_network m (c ∷ name) req.driver req.labels now).1 m,
  )

  -- Whether or not a create succeeds, another create under the same name is a conflict.
  pub create_twice :
      (m : Dict Network) (req again : NetworkCreateRequest) (now later : ℕ)
      → req.name ≢ []
      → again.name ≡ req.name
      → (create sha256_hex (create sha256_hex m (inr req) now).0 (inr again) later).1.status ≡ 409
  unfolding create
  create_twice m req again now later h same = simp same (taken m req.name req again now later h)

  -- A delete that succeeds frees the name.
  pub inspect-delete_network :
      (m : Dict Network) (name : Text)
      → (inspect sha256_hex (delete_network sha256_hex m name).0 name).status ≡ 404
  unfolding inspect delete_network remove
  inspect-delete_network m name = ground (arith, lookup-delete_self name m)
