-- ===== src/Podspec/Codec.antt =====
-- The encodings that the pod annotations use: encoding/json and time.RFC3339, which are libraries.
-- `IsCodec` states that decoding returns what was encoded, and that an encoding is not empty; a map
-- comes back with the same entries, in any order. An instant is in nanoseconds, and RFC3339 keeps its seconds.
use docker_in_kubernetes.Prelude.{ℕ, ◌*◌, ◌/◌, Option, some, List, [], ◌≡◌, ◌≢◌, Text, Dict, lookup}
use docker_in_kubernetes.Podspec.Ports.{PortMapping}

pub record Codec : Type 0 where
  pub marshal_ports : List PortMapping → Text
  pub unmarshal_ports : Text → Option (List PortMapping)
  pub marshal_env : List Text → Text
  pub unmarshal_env : Text → Option (List Text)
  pub marshal_labels : Dict Text → Text
  pub unmarshal_labels : Text → Option (Dict Text)
  pub format_time : ℕ → Text
  pub format_time_nano : ℕ → Text
  pub parse_time : Text → Option ℕ

pub record IsCodec (codec : Codec) : Type 0 where
  pub ports : (ps : List PortMapping) → codec.unmarshal_ports (codec.marshal_ports ps) ≡ some ps
  pub ports_ne : (ps : List PortMapping) → codec.marshal_ports ps ≢ []
  pub env : (es : List Text) → codec.unmarshal_env (codec.marshal_env es) ≡ some es
  pub env_ne : (es : List Text) → codec.marshal_env es ≢ []
  pub labels :
      (m : Dict Text)
      → (m' : Dict Text) × (codec.unmarshal_labels (codec.marshal_labels m) ≡ some m')
        × ((k : Text) → lookup k m' ≡ lookup k m)
  pub labels_ne : (m : Dict Text) → codec.marshal_labels m ≢ []
  pub time : (t : ℕ) → codec.parse_time (codec.format_time t) ≡ some (t / 1000000000 * 1000000000)
  pub time_ne : (t : ℕ) → codec.format_time t ≢ []
