-- ===== src/Server/Reply.antt =====
-- internal/server/render.go: what a handler writes. `json` carries the value that is encoded,
-- `message` the text of dockerapi.ErrorResponse, and `empty` is WriteHeader alone.
use docker_in_kubernetes.Prelude.{ℕ, Text}

pub data Body {ℓ} (A : Type ℓ) : Type ℓ where
  empty : Body A
  message : Text → Body A
  json : A → Body A

pub record Reply {ℓ} (A : Type ℓ) : Type ℓ where
  pub status : ℕ
  pub body : Body A

module _ {ℓ} {A : Type ℓ} where
  abbrev pub write_header : ℕ → Reply A
  write_header status = record { status = status; body = empty }

  abbrev pub write_json : ℕ → A → Reply A
  write_json status a = record { status = status; body = json a }

  abbrev pub write_error : ℕ → Text → Reply A
  write_error status m = record { status = status; body = message m }
