-- ===== src/Networks/Store.antt =====
-- The laws of the network store (internal/networks/store.go).
use docker_in_kubernetes.Prelude.{
  ℕ, ◌≡◌, refl, Option, none, some, [], ◌∷◌, Perm, Text, text, text_eq, arith, if◌then◌else◌, Dict,
  lookup, delete, lookup-insert, lookup-delete, All, IsSorted, IsStrictWeak, sort_by-perm,
  sort_by-IsSorted, All-insert, All-delete, Distinct, Distinct-insert, Distinct-delete, ◌≢◌,
}
use docker_in_kubernetes.Networks.{Network, record_network, new, find, remove, newer, values, list}

-- Every network stands under its own name, has a driver, and no name stands twice.
pub record IsWellformed (m : Dict Network) : Type 0 where
  pub keyed : All (λ e. (e.0 ≡ e.1.name) × (e.1.driver ≢ [])) m
  pub distinct : Distinct m

record_network_keyed :
    (m : Dict Network) (name driver : Text) (labels : Option (Dict Text)) (now : ℕ)
    → let r : Network = (record_network m name driver labels now).1 in
      (name ≡ r.name) × (r.driver ≢ [])
unfolding record_network text
record_network_keyed m name [] labels now = (refl, λ e. cc)
record_network_keyed m name (c ∷ driver) labels now = (refl, λ e. cc)

remove-eq-some :
    (m : Dict Network) (name : Text) (r : Network) (m' : Dict Network)
    → remove m name ≡ some (r, m')
    → (lookup name m ≡ some r) × (m' ≡ delete name m)
unfolding remove
remove-eq-some m name r m' h = ground arith

-- Recording and removing a network keep the store well formed.
pub record_network-IsWellformed :
    (m : Dict Network) (name driver : Text) (labels : Option (Dict Text)) (now : ℕ)
    → IsWellformed m
    → IsWellformed (record_network m name driver labels now).0
unfolding record_network
record_network-IsWellformed m name driver labels now w = record {
  keyed =
      All-insert (λ e. (e.0 ≡ e.1.name) × (e.1.driver ≢ [])) name
        (record_network m name driver labels now).1 m
        (record_network_keyed m name driver labels now) w.keyed;
  distinct = Distinct-insert name (record_network m name driver labels now).1 m w.distinct;
}

pub remove-IsWellformed :
    (m : Dict Network) (name : Text) (r : Network) (m' : Dict Network)
    → IsWellformed m
    → remove m name ≡ some (r, m')
    → IsWellformed m'
remove-IsWellformed m name r m' w h =
    let after : m' ≡ delete name m = ground (arith, remove-eq-some m name r m' h) in
    record {
      keyed = rw after (All-delete (λ e. (e.0 ≡ e.1.name) × (e.1.driver ≢ [])) name m w.keyed);
      distinct = rw after (Distinct-delete name m w.distinct);
    }

pub new-IsWellformed : IsWellformed new
unfolding new
new-IsWellformed =
    record_network-IsWellformed [] (text "bridge") (text "bridge") none 0
      (record { keyed = tt; distinct = tt })

-- Find after Record and after Remove, at every name.
pub find-record_network :
    (m : Dict Network) (name other driver : Text) (labels : Option (Dict Text)) (now : ℕ)
    → let (m', r) = record_network m name driver labels now in
      find m' other ≡ (if text_eq name other then some r else find m other)
unfolding record_network
find-record_network m name other driver labels now = lookup-insert name other _ m

pub find-remove :
    (m : Dict Network) (name other : Text) (r : Network) (m' : Dict Network)
    → remove m name ≡ some (r, m')
    → (find m name ≡ some r) × (find m' other ≡ (if text_eq name other then none else find m other))
unfolding remove
find-remove m name other r m' h = ground (arith, lookup-delete name other m)

newer-IsStrictWeak : IsStrictWeak newer
newer-IsStrictWeak = record { asym = λ x y h. ground arith; neg_trans = λ x y z h k. ground arith }

-- List returns every recorded network once, newest first.
pub list_lem : (m : Dict Network) → Perm (list m) (values m) × IsSorted newer (list m)
unfolding list
list_lem m = (sort_by-perm newer (values m), sort_by-IsSorted newer newer-IsStrictWeak (values m))
