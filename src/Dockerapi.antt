-- ===== src/Dockerapi.antt =====
-- internal/dockerapi/stringorslice.go: a JSON field that is a string or a list of strings. The decoders
-- and the encoder of encoding/json are parameters.
use docker_in_kubernetes.Prelude.{
  ◌≡◌, refl, ap, sym, ◌∙◌, List, [], ◌∷◌, ◌++◌, Text, text, text_eq, ◌==◌, arith, if◌then◌else◌,
}
use docker_in_kubernetes.Podspec.Ports.{Result, ok, err}

-- json.Unmarshal into a list of strings and into a string, and json.Marshal of a list of strings.
pub record Json : Type 0 where
  pub decode_list : Text → Result (List Text)
  pub decode_string : Text → Result Text
  pub encode_list : List Text → Text

-- What encoding/json promises of the encoding of a list: it begins with a bracket, and is decoded again.
pub record IsJson (json : Json) : Type 0 where
  pub bracket : (ss : List Text) → (rest : Text) × (json.encode_list ss ≡ b'[' ∷ rest)
  pub decoded : (ss : List Text) → json.decode_list (json.encode_list ss) ≡ ok ss

module _ (json : Json) where
  -- Method UnmarshalJSON.
  unfoldable pub unmarshal_json : Text → Result (List Text)
  unmarshal_json [] = ok []
  unmarshal_json (c ∷ s) =
      let list : Result (List Text) = elim (json.decode_list (c ∷ s)) [
        | ok arr ↦ ok arr
        | err e ↦ err (text "StringOrSlice: " ++ e)
      ] in
      let string : Result (List Text) = elim (json.decode_string (c ∷ s)) [
        | ok [] ↦ ok []
        | ok (d ∷ str) ↦ ok ((d ∷ str) ∷ [])
        | err e ↦ err (text "StringOrSlice: " ++ e)
      ] in
      if text_eq (c ∷ s) (text "null")
      then ok []
      else if c == b'['
      then list
      else if c == b'"'
      then string
      else err (text "StringOrSlice: unexpected JSON value " ++ c ∷ s)

  -- Method MarshalJSON.
  unfoldable pub marshal_json : List Text → Text
  marshal_json [] = text "null"
  marshal_json (s ∷ ss) = json.encode_list (s ∷ ss)

  -- A list of strings is read back as it was written, the empty one included.
  pub unmarshal-marshal : (ss : List Text) → IsJson json → unmarshal_json (marshal_json ss) ≡ ok ss
  unfolding unmarshal_json marshal_json text text_eq
  unmarshal-marshal [] is_json = refl
  unmarshal-marshal (s ∷ ss) is_json =
      let (rest, e) = is_json.bracket (s ∷ ss) in
      let back : json.decode_list (b'[' ∷ rest) ≡ ok (s ∷ ss) =
        ap json.decode_list (sym e) ∙ is_json.decoded (s ∷ ss) in
      ap unmarshal_json e ∙ ground (arith, back)
