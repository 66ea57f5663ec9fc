-- ===== src/Server/NetworksApi/Refined.antt =====
-- internal/server/networks.go and internal/networks/store.go: what clients of the networks' endpoints can
-- rely on, as a function from names to networks.
use mathlib.Core.Path.{fun_ext}
use docker_in_kubernetes.Prelude.{
  ℕ, ◌≡◌, refl, ap, ◌∙◌, Option, none, some, List, [], ◌∷◌, ◌++◌, Text, text, text_eq, arith,
  if◌then◌else◌, Dict, lookup, lookup-insert, lookup-delete, Option-cases, inl, inr,
}
use docker_in_kubernetes.Networks.{Network, record_network, has, remove, network_id, copy_labels}
use docker_in_kubernetes.Server.NetworksApi.{
  NetworkCreateRequest, NetworkAnswer, create, create_named, inspect, delete_network, to_network,
}
use docker_in_kubernetes.Server.Reply.{Reply, write_json, write_error, write_header}

-- A request, and the answer to it.
pub data Request : Type 0 where
  creates : NetworkCreateRequest → ℕ → Request
  inspects deletes : Text → Request

pub data Answer : Type 0 where
  created : Reply Text → Answer
  inspected : Reply NetworkAnswer → Answer
  deleted : Reply (Unit {0}) → Answer

-- The networks that there are, by name.
abbrev pub Networks : Type 0
Networks = Text → Option Network

abbrev pub update : Networks → Text → Option Network → Networks
update f name v other = if text_eq name other then v else f other

-- The network of a request: without a driver a bridge, and with the labels given, if any.
abbrev pub network_of : NetworkCreateRequest → ℕ → Network
network_of req now = record {
  name = req.name;
  driver = elim req.driver [ [] ↦ text "bridge" | c ∷ cs ↦ c ∷ cs ];
  labels = elim req.labels [
    | none ↦ none
    | some ls ↦ elim ls [ [] ↦ none | l ∷ rest ↦ some (l ∷ rest) ]
  ];
  created_at = now;
}

abbrev pub no_network : Text → Text
no_network name = text "network " ++ name ++ text " not found"

module _ (sha256_hex : Text → Text) where
  -- The promise: a name is taken from its create to its delete, and an inspect shows what was created.
  unfoldable pub promise : Networks → Request → Networks × Answer
  promise f (creates req now) = elim req.name [
    | [] ↦ (f, created (write_error 400 (text "Name is required")))
    | c ∷ cs ↦ elim (f req.name) [
      | some r ↦ (
        f,
        created (write_error 409 (text "network with name " ++ req.name ++ text " already exists")),
      )
      | none ↦ (
        update f req.name (some (network_of req now)),
        created (write_json 201 (sha256_hex req.name)),
      )
    ]
  ]
  promise f (inspects name) = elim (f name) [
    | some r ↦ (f, inspected (write_json 200 (to_network sha256_hex r)))
    | none ↦ (f, inspected (write_error 404 (no_network name)))
  ]
  promise f (deletes name) = elim (f name) [
    | some r ↦ (update f name none, deleted (write_header 204))
    | none ↦ (f, deleted (write_error 404 (no_network name)))
  ]

  -- The handlers.
  unfoldable pub serve : Dict Network → Request → Dict Network × Answer
  serve m (creates req now) =
      let (m', reply) = create sha256_hex m (inr req) now in (m', created reply)
  serve m (inspects name) = (m, inspected (inspect sha256_hex m name))
  serve m (deletes name) = let (m', reply) = delete_network sha256_hex m name in (m', deleted reply)

  abbrev pub names : Dict Network → Networks
  names m name = lookup name m

  -- A sequence of requests, with the answers.
  unfoldable pub run : Dict Network → List Request → Dict Network × List Answer
  run m [] = (m, [])
  run m (r ∷ rs) = let (m', a) = serve m r in let (m'', answers) = run m' rs in (m'', a ∷ answers)

  unfoldable pub replay : Networks → List Request → Networks × List Answer
  replay f [] = (f, [])
  replay f (r ∷ rs) =
      let (f', a) = promise f r in let (f'', answers) = replay f' rs in (f'', a ∷ answers)

  network_of_lem :
      (m : Dict Network) (name driver : Text) (labels : Option (Dict Text)) (now : ℕ)
      → (record_network m name driver labels now).1
        ≡ network_of (record { name = name; driver = driver; labels = labels }) now
  unfolding record_network copy_labels
  network_of_lem m name [] none now = refl
  network_of_lem m name [] (some []) now = refl
  network_of_lem m name [] (some (l ∷ ls)) now = refl
  network_of_lem m name (c ∷ cs) none now = refl
  network_of_lem m name (c ∷ cs) (some []) now = refl
  network_of_lem m name (c ∷ cs) (some (l ∷ ls)) now = refl

  record_network_id :
      (m : Dict Network) (name driver : Text) (labels : Option (Dict Text)) (now : ℕ)
      → network_id sha256_hex (record_network m name driver labels now).1 ≡ sha256_hex name
  unfolding record_network network_id
  record_network_id m name driver labels now = refl

  record_network-names :
      (m : Dict Network) (other name driver : Text) (labels : Option (Dict Text)) (now : ℕ)
      → lookup other (record_network m name driver labels now).0
        ≡ update
            (names m)
            name
            (some (network_of (record { name = name; driver = driver; labels = labels }) now))
            other
  unfolding record_network
  record_network-names m other name driver labels now =
      lookup-insert name other (record_network m name driver labels now).1 m
      ∙ ap (λ r. if text_eq name other then some r else lookup other m)
          (network_of_lem m name driver labels now)

  created_names :
      (m : Dict Network) (other name : Text) (req : NetworkCreateRequest) (now : ℕ)
      → req.name ≡ name
      → (lookup other (create_named sha256_hex m name req now).0
          ≡ (promise (names m) (creates req now)).0 other)
        × (created (create_named sha256_hex m name req now).1
            ≡ (promise (names m) (creates req now)).1)
  unfolding create_named promise has
  created_names m other [] req now e = (ground (arith, e), ground (arith, e))
  created_names m other (c ∷ cs) req now e = elim (Option-cases (lookup (c ∷ cs) m)) [
    | inr (r, f) ↦ (ground (arith, e, f), ground (arith, e, f))
    | inl f ↦ (
      ground (arith, e, f, record_network-names m other (c ∷ cs) req.driver req.labels now),
      ground (arith, e, f, record_network_id m (c ∷ cs) req.driver req.labels now),
    )
  ]

  serve_refines :
      (m : Dict Network) (r : Request)
      → (names (serve m r).0 ≡ (promise (names m) r).0) × ((serve m r).1 ≡ (promise (names m) r).1)
  unfolding serve create
  serve_refines m (creates req now) = (
    fun_ext (λ other. (created_names m other req.name req now refl).0),
    (created_names m [] req.name req now refl).1,
  )
  serve_refines m (inspects name) = unfold inspect promise in (ground arith, ground arith)
  serve_refines m (deletes name) = (
    fun_ext (λ other.
        unfold delete_network remove promise in ground (arith, lookup-delete name other m)),
    unfold delete_network remove promise in ground arith,
  )

  -- Every sequence of creates, inspects and deletes is answered as the promise answers it: the store is a
  -- partial function from names to networks, in which a name is taken from its create to its delete.
  pub run_refines :
      (m : Dict Network) (rs : List Request)
      → (names (run m rs).0 ≡ (replay (names m) rs).0) × ((run m rs).1 ≡ (replay (names m) rs).1)
  unfolding run replay
  run_refines m [] = (refl, refl)
  run_refines m (r ∷ rs) =
      let (state, answer) = serve_refines m r in
      let (states, answers) = run_refines (serve m r).0 rs in
      (
        states ∙ ap (λ f. (replay f rs).0) state,
        ap (λ a. a ∷ (run (serve m r).0 rs).1) answer
            ∙ ap (λ l. (promise (names m) r).1 ∷ l) (answers ∙ ap (λ f. (replay f rs).1) state),
      )
