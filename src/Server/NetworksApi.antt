-- ===== src/Server/NetworksApi.antt =====
-- internal/server/networks.go: the /networks endpoints over the network store. Decoding the JSON
-- body is encoding/json's; a body that does not decode is
-- its error.
pub mod Names
pub mod Refined
pub mod Race
use docker_in_kubernetes.Prelude.{
  ◌⊎◌, inl, inr, ℕ, Bool, true, false, Option, none, some, List, [], ◌∷◌, ◌++◌, map, Text, text,
  if◌then◌else◌, Dict,
}
use docker_in_kubernetes.Networks
use docker_in_kubernetes.Networks.{Network, record_network, has, find, remove, list, network_id}
use docker_in_kubernetes.Server.Reply.{Reply, write_json, write_error, write_header}

pub record NetworkCreateRequest : Type 0 where
  pub name : Text
  pub driver : Text
  pub labels : Option (Dict Text)

-- The fields of dockerapi.Network that depend on the record.
pub record NetworkAnswer : Type 0 where
  pub name : Text
  pub id : Text
  pub created : ℕ
  pub scope : Text
  pub driver : Text
  pub labels : Dict Text

or_empty : Option (Dict Text) → Dict Text
or_empty none = []
or_empty (some labels) = labels

module _ (sha256_hex : Text → Text) where
  unfoldable pub to_network : Network → NetworkAnswer
  unfolding or_empty
  to_network r = record {
    name = r.name;
    id = network_id sha256_hex r;
    created = r.created_at;
    scope = text "local";
    driver = r.driver;
    labels = or_empty r.labels;
  }

  -- The answer to a create that succeeds is the network's ID.
  pub create_named : Dict Network → Text → NetworkCreateRequest → ℕ → Dict Network × Reply Text
  create_named m [] req now = (m, write_error 400 (text "Name is required"))
  create_named m (c ∷ name) req now =
      if has m (c ∷ name)
      then (m, write_error 409 (text "network with name " ++ (c ∷ name) ++ text " already exists"))
      else let (m', rec) = record_network m (c ∷ name) req.driver req.labels now in
        (m', write_json 201 (network_id sha256_hex rec))

  unfoldable pub create : Dict Network → Text ⊎ NetworkCreateRequest → ℕ → Dict Network × Reply Text
  unfolding create_named
  create m (inl err) now = (m, write_error 400 (text "invalid JSON body: " ++ err))
  create m (inr req) now = create_named m req.name req now

  unfoldable pub list_networks : Dict Network → Reply (List NetworkAnswer)
  list_networks m = write_json 200 (map to_network (list m))

  unfoldable pub inspect : Dict Network → Text → Reply NetworkAnswer
  inspect m name = elim (find m name) [
    | some rec ↦ write_json 200 (to_network rec)
    | none ↦ write_error 404 (text "network " ++ name ++ text " not found")
  ]

  unfoldable pub delete_network : Dict Network → Text → Dict Network × Reply (Unit {0})
  delete_network m name = elim (remove m name) [
    | some (rec, m') ↦ (m', write_header 204)
    | none ↦ (m, write_error 404 (text "network " ++ name ++ text " not found"))
  ]

-- noop, for connect and disconnect.
abbrev pub noop : Reply (Unit {0})
noop = write_header 200
