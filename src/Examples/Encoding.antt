-- ===== src/Examples/Encoding.antt =====
-- An encoding with the properties of IsCodec: each text after its length, each list after its length.
use docker_in_kubernetes.Prelude.{
  ℕ, zero, suc, ◌*◌, ◌/◌, ◌≡◌, ◌≢◌, refl, ap, none, some, Option, List, [], ◌∷◌, ◌++◌, Text, arith,
  length, take, drop,
}
use docker_in_kubernetes.Podspec.Codec.{Codec, IsCodec}
use docker_in_kubernetes.Podspec.Ports.{PortMapping}

infixl 5 ◌>>=◌
abbrev ◌>>=◌ {ℓ κ} : {A : Type ℓ} {B : Type κ} → Option A → (A → Option B) → Option B
none >>= f = none
some a >>= f = f a

take-length : (t r : Text) → take (length t) (t ++ r) ≡ t
take-length [] r = refl
take-length (c ∷ t) r = ap (λ l. c ∷ l) (take-length t r)

drop-length : (t r : Text) → drop (length t) (t ++ r) ≡ r
drop-length [] r = refl
drop-length (c ∷ t) r = drop-length t r

unfoldable pub put_text : Text → Text → Text
put_text t r = length t ∷ t ++ r

unfoldable pub get_text : Text → Option (Text × Text)
get_text [] = none
get_text (n ∷ s) = some (take n s, drop n s)

get_text-put_text : (t r : Text) → get_text (put_text t r) ≡ some (t, r)
unfolding get_text put_text
get_text-put_text t r = ground (arith, take-length t r, drop-length t r)

module _ {ℓ} {A : Type ℓ} (put : A → Text → Text) (get : Text → Option (A × Text)) where
  unfoldable pub put_all : List A → Text → Text
  put_all [] r = r
  put_all (a ∷ items) r = put a (put_all items r)

  unfoldable pub get_all : ℕ → Text → Option (List A × Text)
  get_all zero s = some ([], s)
  get_all (suc n) s = do first ← get s; rest ← get_all n first.1; some (first.0 ∷ rest.0, rest.1)

  unfoldable pub encode : List A → Text
  unfolding put_all
  encode items = length items ∷ put_all items []

  unfoldable pub decode : Text → Option (List A)
  unfolding get_all
  decode [] = none
  decode (n ∷ s) = do out ← get_all n s; some out.0

  module _ (inverse : (a : A) (r : Text) → get (put a r) ≡ some (a, r)) where
    get_all-put_all :
        (items : List A) (r : Text) → get_all (length items) (put_all items r) ≡ some (items, r)
    unfolding get_all put_all
    get_all-put_all [] r = refl
    get_all-put_all (a ∷ items) r =
        ground (arith, inverse a (put_all items r), get_all-put_all items r)

    decode-encode : (items : List A) → decode (encode items) ≡ some items
    unfolding decode encode
    decode-encode items = ground (arith, get_all-put_all items [])

    encode-ne : (items : List A) → encode items ≢ []
    unfolding encode
    encode-ne items e = ground arith

unfoldable pub put_mapping : PortMapping → Text → Text
unfolding put_text
put_mapping m r = put_text m.host_port (m.container_port ∷ put_text m.protocol r)

unfoldable pub get_mapping : Text → Option (PortMapping × Text)
unfolding get_text
get_mapping s = do
  host ← get_text s
  elim host.1 [
    | [] ↦ none
    | port ∷ r ↦ do
      proto ← get_text r
      some (record { host_port = host.0; container_port = port; protocol = proto.0 }, proto.1)
  ]

get_mapping-put_mapping : (m : PortMapping) (r : Text) → get_mapping (put_mapping m r) ≡ some (m, r)
unfolding get_mapping put_mapping
get_mapping-put_mapping m r = ground (
  arith,
  get_text-put_text m.host_port (m.container_port ∷ put_text m.protocol r),
  get_text-put_text m.protocol r,
)

unfoldable pub put_pair : Text × Text → Text → Text
unfolding put_text
put_pair e r = put_text e.0 (put_text e.1 r)

unfoldable pub get_pair : Text → Option ((Text × Text) × Text)
unfolding get_text
get_pair s = do k ← get_text s; v ← get_text k.1; some ((k.0, v.0), v.1)

get_pair-put_pair : (e : Text × Text) (r : Text) → get_pair (put_pair e r) ≡ some (e, r)
unfolding get_pair put_pair
get_pair-put_pair e r =
    ground (arith, get_text-put_text e.0 (put_text e.1 r), get_text-put_text e.1 r)

unfoldable pub parse_seconds : Text → Option ℕ
parse_seconds [] = none
parse_seconds (s ∷ r) = some (s * 1000000000)

abbrev pub plain : Codec
plain = record {
  marshal_ports = encode put_mapping get_mapping;
  unmarshal_ports = decode put_mapping get_mapping;
  marshal_env = encode put_text get_text;
  unmarshal_env = decode put_text get_text;
  marshal_labels = encode put_pair get_pair;
  unmarshal_labels = decode put_pair get_pair;
  format_time = λ t. t / 1000000000 ∷ [];
  format_time_nano = λ t. t ∷ [];
  parse_time = parse_seconds;
}

pub plain-IsCodec : IsCodec plain
unfolding parse_seconds
plain-IsCodec = record {
  ports = decode-encode put_mapping get_mapping get_mapping-put_mapping;
  ports_ne = encode-ne put_mapping get_mapping get_mapping-put_mapping;
  env = decode-encode put_text get_text get_text-put_text;
  env_ne = encode-ne put_text get_text get_text-put_text;
  labels = λ m. (m, decode-encode put_pair get_pair get_pair-put_pair m, λ k. refl);
  labels_ne = encode-ne put_pair get_pair get_pair-put_pair;
  time = λ t. refl;
  time_ne = λ t e. ground arith;
}
