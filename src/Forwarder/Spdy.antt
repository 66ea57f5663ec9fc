-- ===== src/Forwarder/Spdy.antt =====
-- internal/forwarder/spdy.go: tunnels through the API server. client-go's port forwarder is a parameter:
-- whether it can be made for the ports, and what it signals. A channel is an address, and `closes` counts
-- how often the channel at an address was closed; a second close would panic.
pub mod Tunnels
use docker_in_kubernetes.Prelude.{
  ℕ, zero, suc, Bool, true, false, Option, none, some, List, [], ◌∷◌, ◌++◌, Text, text, itoa, ◌==◌,
  ◌||◌, ◌≡◌, if◌then◌else◌,
}
use docker_in_kubernetes.Forwarder.{Mapping}
use docker_in_kubernetes.Podspec.Ports.{Result, ok, err}

-- A spdyHandle.
pub record SpdyHandle : Type 0 where
  pub stop : Option ℕ
  pub is_closed : Bool

-- The loop over the mappings.
unfoldable pub forwarded_ports : List Mapping → List Text
forwarded_ports [] = []
forwarded_ports (m ∷ ms) =
    let rest = forwarded_ports ms in
    if m.host_port == 0 then rest else (itoa m.host_port ++ b':' ∷ itoa m.container_port) ∷ rest

-- What the port forwarder and the context signal by the time of the select: ready, the error channel,
-- closed (`some none`) or with an error, and the context's end.
pub record Signals : Type 0 where
  pub ready : Bool
  pub failure : Option (Option Text)
  pub ctx : Option Text

-- The case that the select takes; of several that are ready it may take any.
pub data Chosen : Signals → Type 0 where
  by_ready : (g : Signals) → g.ready ≡ true → Chosen g
  by_failure : (g : Signals) (e : Option Text) → g.failure ≡ some e → Chosen g
  by_context : (g : Signals) (e : Text) → g.ctx ≡ some e → Chosen g

unfoldable pub close_channel : ℕ → (ℕ → ℕ) → ℕ → ℕ
close_channel a closes b = if b == a then suc (closes b) else closes b

-- `%w` of an error that may be nil.
abbrev pub error_value : Option Text → Text
error_value none = text "%!w(<nil>)"
error_value (some e) = e

-- The end of Open: the select.
unfoldable pub await : (g : Signals) → Chosen g → ℕ → (ℕ → ℕ) → (ℕ → ℕ) × Result SpdyHandle
unfolding close_channel
await g (by_ready _ r) stop closes = (closes, ok (record { stop = some stop; is_closed = false }))
await g (by_failure _ e f) stop closes =
    (closes, err (text "port forward setup: " ++ error_value e))
await g (by_context _ e c) stop closes = (close_channel stop closes, err e)

-- Method Open. `stop` is the address of a new channel.
unfoldable pub open_spdy :
    Option Text
    → (List Text → Option Text)
    → (g : Signals) → Chosen g
    → ℕ
    → List Mapping
    → (ℕ → ℕ)
    → (ℕ → ℕ) × Result SpdyHandle
unfolding forwarded_ports await
open_spdy round_tripper new_forwarder g chosen stop mappings closes =
    elim (forwarded_ports mappings) [
      | [] ↦ (closes, ok (record { stop = none; is_closed = false }))
      | p ∷ ports ↦ elim round_tripper [
        | some e ↦ (closes, err (text "spdy round tripper: " ++ e))
        | none ↦ elim (new_forwarder (p ∷ ports)) [
          | some e ↦ (closes, err (text "new port forwarder: " ++ e))
          | none ↦ await g chosen stop closes
        ]
      ]
    ]

-- Method Close, which returns no error.
unfoldable pub close : SpdyHandle → (ℕ → ℕ) → SpdyHandle × (ℕ → ℕ)
unfolding close_channel
close h closes = if h.is_closed then (h, closes) else (
  record h { is_closed = true },
  (elim h.stop [ none ↦ closes | some a ↦ close_channel a closes ]),
)

abbrev pub is_line_end : ℕ → Bool
is_line_end c = (c == b'\n') || (c == b'\r')

-- stripTrailingNewline, which slogWriter applies to what it logs.
unfoldable pub strip_trailing_newline : Text → Text
strip_trailing_newline [] = []
strip_trailing_newline (c ∷ s) =
    let rest = strip_trailing_newline s in
    elim rest [ d ∷ t ↦ c ∷ d ∷ t | [] ↦ if is_line_end c then [] else c ∷ [] ]
