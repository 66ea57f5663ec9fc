-- ===== src/Examples/Stores.antt =====
-- Images and networks (internal/images, internal/networks, internal/server).
use docker_in_kubernetes.Prelude.{
  ℕ, zero, suc, ◌+◌, ◌≡◌, ◌≢◌, ◌↔◌, ◌⊎◌, inl, inr, refl, Text, text, none, some, List, [], ◌∷◌,
  ◌++◌, Bool, true, false, not, ◌||◌, Option, arith, Dict, lookup, text_eq, trim_prefix, length,
  ltb, if◌then◌else◌, contains,
}
use docker_in_kubernetes.Images.{
  Record, Store, canonical_ref, find, remove, find_by_id_prefix, is_hex,
}
use docker_in_kubernetes.Images.Wellformed.{IsWellformed, remove_lem}
use docker_in_kubernetes.Images.Prefix.{single, hits, find_by_id_prefix_lem}
use docker_in_kubernetes.Images.Lookup.{IsShort}
use docker_in_kubernetes.Server.ImagesApi.{build_ref, summary}
use docker_in_kubernetes.Server.ImagesApi as ImagesApi
use docker_in_kubernetes.Server.ImagesApi.Pull.{inspect-create_port}
use docker_in_kubernetes.Networks
use docker_in_kubernetes.Networks.{Network, has, record_network}
use docker_in_kubernetes.Server.NetworksApi.{NetworkCreateRequest}
use docker_in_kubernetes.Server.NetworksApi.Refined.{
  Request, creates, inspects, deletes, names, run, replay, run_refines,
}
use docker_in_kubernetes.Server.NetworksApi.Race.{create_check, create_record, create_race}
use docker_in_kubernetes.Server.Reply.{Reply}

-- A digest of its own for each text, for the examples.
abbrev digest : Text → Text
digest t = t

abbrev redis : Text
redis = b'r' ∷ b'e' ∷ b'd' ∷ b'i' ∷ b's' ∷ []

abbrev one_image : Store
one_image = record { m = (redis, record { ref = redis; tag = []; pulled_at = 7 }) ∷ [] }

abbrev redis_record : Record
redis_record = record { ref = redis; tag = []; pulled_at = 7 }

abbrev no_images : Store
no_images = record { m = [] }

one_image-IsWellformed : IsWellformed one_image
one_image-IsWellformed = record { keyed = (refl, tt); distinct = (tt, tt) }

redis_removed : remove digest one_image redis ≡ some (redis_record, no_images)
unfolding remove lookup text_eq canonical_ref docker_in_kubernetes.Prelude.cut_prefix text
    docker_in_kubernetes.Prelude.delete
redis_removed = refl

remove_lem_example :
    (find digest one_image redis ≡ some redis_record)
    × (lookup redis one_image.m ≡ some redis_record)
    × ((k : Text) → lookup k no_images.m ≡ (if text_eq redis k then none else lookup k one_image.m))
    × IsWellformed no_images
remove_lem_example =
    remove_lem digest one_image redis redis_record no_images one_image-IsWellformed redis_removed

find_by_id_prefix_lem_example : find_by_id_prefix digest one_image.m redis ≡ (
    if ltb (length (trim_prefix redis (text "sha256:"))) 4
      || not (is_hex (trim_prefix redis (text "sha256:")))
    then none
    else single (hits digest (trim_prefix redis (text "sha256:")) one_image.m))
find_by_id_prefix_lem_example = find_by_id_prefix_lem digest one_image.m redis

-- localhost:5/x.
abbrev with_port : Text
with_port = b'r' ∷ b':' ∷ b'5' ∷ b'/' ∷ b'x' ∷ []

with_port-IsShort : IsShort with_port
unfolding text docker_in_kubernetes.Prelude.cut_prefix
with_port-IsShort = (refl, (refl, (refl, (refl, (refl, tt)))))

with_port_latest-IsShort : IsShort (with_port ++ text ":latest")
unfolding text docker_in_kubernetes.Prelude.cut_prefix
with_port_latest-IsShort = (refl, (refl, (refl, (refl, (refl, tt)))))

with_port_colon : contains with_port b':' ≡ true
unfolding contains
with_port_colon = refl

with_port_digest : contains with_port b'@' ≡ false
unfolding contains
with_port_digest = refl

with_port_hex : is_hex (trim_prefix with_port (text "sha256:")) ≡ false
unfolding is_hex trim_prefix text
with_port_hex = refl

with_port_absent : lookup with_port no_images.m ≡ none
unfolding lookup
with_port_absent = refl

inspect-create_port_example :
    (ImagesApi.inspect digest (ImagesApi.create no_images with_port [] 5).0 with_port).status ≡ 404
inspect-create_port_example =
    inspect-create_port digest no_images b'r' (b':' ∷ b'5' ∷ b'/' ∷ b'x' ∷ []) 5 with_port-IsShort
      with_port_latest-IsShort with_port_colon with_port_digest with_port_hex with_port_absent

abbrev front_request : NetworkCreateRequest
front_request = record { name = redis; driver = []; labels = none }

abbrev network_requests : List Request
network_requests =
    creates front_request 5 ∷ creates front_request 6 ∷ deletes redis ∷ inspects redis ∷ []

run_refines_example :
    (names digest (run digest [] network_requests).0
      ≡ (replay digest (names digest []) network_requests).0)
    × ((run digest [] network_requests).1 ≡ (replay digest (names digest []) network_requests).1)
run_refines_example = run_refines digest [] network_requests

redis_free : has [] redis ≡ false
unfolding has lookup
redis_free = refl

abbrev first_created : Dict Network × Reply Text
first_created = create_record digest (create_check digest [] redis) [] redis front_request 5

create_race_example :
    (first_created.1.status ≡ 201)
    × ((create_record digest
          (create_check digest [] redis)
          first_created.0
          redis
          front_request
          6).1.status
        ≡ 201)
    × (Networks.find
          (create_record digest
            (create_check digest [] redis)
            first_created.0
            redis
            front_request
            6).0
          redis
        ≡ some (record_network [] redis front_request.driver front_request.labels 6).1)
create_race_example =
    create_race digest [] b'r' (b'e' ∷ b'd' ∷ b'i' ∷ b's' ∷ []) front_request front_request 5 6
      redis_free
