-- ===== src/Server/NetworksApi/Race.antt =====
-- internal/server/networks.go: handler create takes the store's lock twice, for Has and for Record, and
-- other handlers may run in between.
use docker_in_kubernetes.Prelude.{
  ℕ, ◌≡◌, refl, false, Option, none, some, [], ◌∷◌, ◌++◌, Text, text, arith, if◌then◌else◌, Dict,
  lookup-insert_self,
}
use docker_in_kubernetes.Networks.{Network, record_network, has, find, network_id}
use docker_in_kubernetes.Server.NetworksApi.{NetworkCreateRequest, create_named}
use docker_in_kubernetes.Server.Reply.{Reply, write_json, write_error}

module _ (sha256_hex : Text → Text) where
  -- The step up to Has: the reply of a refusal.
  unfoldable pub create_check : Dict Network → Text → Option (Reply Text)
  create_check m [] = some (write_error 400 (text "Name is required"))
  create_check m (c ∷ name) =
      if has m (c ∷ name)
      then some
          (write_error 409 (text "network with name " ++ (c ∷ name) ++ text " already exists"))
      else none

  -- The step from Record on.
  unfoldable pub create_record :
      Option (Reply Text)
      → Dict Network
      → Text
      → NetworkCreateRequest
      → ℕ
      → Dict Network × Reply Text
  create_record (some refusal) m name req now = (m, refusal)
  create_record none m name req now =
      let (m', r) = record_network m name req.driver req.labels now in
      (m', write_json 201 (network_id sha256_hex r))

  -- With nothing in between the two steps are the handler.
  pub create_steps :
      (m : Dict Network) (name : Text) (req : NetworkCreateRequest) (now : ℕ)
      → create_record (create_check m name) m name req now ≡ create_named sha256_hex m name req now
  unfolding create_check create_record create_named has
  create_steps m [] req now = refl
  create_steps m (c ∷ name) req now = ground arith

  create_check-free :
      (m : Dict Network) (c : ℕ) (cs : Text)
      → has m (c ∷ cs) ≡ false
      → create_check m (c ∷ cs) ≡ none
  unfolding create_check
  create_check-free m c cs free = ground (arith, free)

  -- Two creates of one name that is free, whose checks both run before either records: both are answered
  -- 201, and the network of the first is lost to that of the second.
  pub create_race :
      (m : Dict Network) (c : ℕ) (cs : Text) (first second : NetworkCreateRequest) (now later : ℕ)
      → has m (c ∷ cs) ≡ false
      → let (m1, reply1) = create_record (create_check m (c ∷ cs)) m (c ∷ cs) first now in
        let (m2, reply2) = create_record (create_check m (c ∷ cs)) m1 (c ∷ cs) second later in
        (reply1.status ≡ 201)
        × (reply2.status ≡ 201)
        × (find m2 (c ∷ cs) ≡ some (record_network m (c ∷ cs) second.driver second.labels later).1)
  unfolding create_record
  create_race m c cs first second now later free =
      let m1 : Dict Network = (record_network m (c ∷ cs) first.driver first.labels now).0 in
      rw (create_check-free m c cs free) (
        refl,
        refl,
        unfold record_network in
            lookup-insert_self (c ∷ cs)
              (record_network m1 (c ∷ cs) second.driver second.labels later).1 m1,
      )
