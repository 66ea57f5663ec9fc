-- ===== src/Networks.antt =====
-- internal/networks/store.go: the record of the networks that were created. The mutex makes each
-- method one step. A nil map of labels is `none`. The hex digest of crypto/sha256 is a parameter.
pub mod Store
use docker_in_kubernetes.Prelude.{
  ℕ, Bool, true, false, Option, none, some, List, [], ◌∷◌, map, Text, text, ltb, if◌then◌else◌,
  Dict, lookup, insert, delete, sort_by,
}

pub record Network : Type 0 where
  pub name : Text
  pub driver : Text
  pub labels : Option (Dict Text)
  pub created_at : ℕ

-- A copy of a map has the same entries. An empty map and a nil one both give nil.
unfoldable pub copy_labels : Option (Dict Text) → Option (Dict Text)
copy_labels none = none
copy_labels (some []) = none
copy_labels (some (e ∷ labels)) = some (e ∷ labels)

default_driver : Text → Text
default_driver [] = text "bridge"
default_driver (c ∷ driver) = c ∷ driver

-- Method Record: the map after it, and the stored copy.
unfoldable pub record_network :
    Dict Network → Text → Text → Option (Dict Text) → ℕ → Dict Network × Network
unfolding default_driver
record_network m name driver labels now =
    let r : Network = record {
      name = name;
      driver = default_driver driver;
      labels = copy_labels labels;
      created_at = now;
    } in
    (insert name r m, r)

-- The store starts with the bridge network, created at the epoch.
unfoldable pub new : Dict Network
new = (record_network [] (text "bridge") (text "bridge") none 0).0

unfoldable pub has : Dict Network → Text → Bool
has m name = elim (lookup name m) [ some r ↦ true | none ↦ false ]

abbrev pub find : Dict Network → Text → Option Network
find m name = lookup name m

unfoldable pub remove : Dict Network → Text → Option (Network × Dict Network)
remove m name = elim (lookup name m) [ some r ↦ some (r, delete name m) | none ↦ none ]

abbrev pub newer : Network → Network → Bool
newer a b = ltb b.created_at a.created_at

unfoldable pub values : Dict Network → List Network
values m = map (λ e. e.1) m

unfoldable pub list : Dict Network → List Network
list m = sort_by newer (values m)

unfoldable pub network_id : (Text → Text) → Network → Text
network_id sha256_hex r = sha256_hex r.name
