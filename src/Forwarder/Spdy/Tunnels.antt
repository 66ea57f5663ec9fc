-- ===== src/Forwarder/Spdy/Tunnels.antt =====
-- internal/forwarder/spdy.go: the stop channel of a tunnel.
use mathlib.Core.Path.{subst}
use docker_in_kubernetes.Prelude.{
  ℕ, zero, suc, ◌≡◌, refl, ap, sym, ◌∙◌, ◌&&◌, inl, inr, Bool, true, false, Option, none, some,
  List, [], ◌∷◌, ◌++◌, Text, text, arith, if◌then◌else◌, Option-cases,
}
use docker_in_kubernetes.Forwarder.{Mapping}
use docker_in_kubernetes.Podspec.Ports.{Result, ok, err}
use docker_in_kubernetes.Forwarder.Spdy.{
  SpdyHandle, Signals, Chosen, by_ready, by_failure, by_context, close_channel, await,
  forwarded_ports, open_spdy, close,
}

-- Close, called any number of times.
unfoldable pub close_times : ℕ → SpdyHandle → (ℕ → ℕ) → SpdyHandle × (ℕ → ℕ)
close_times zero h closes = (h, closes)
close_times (suc n) h closes = let (h', closes') = close h closes in close_times n h' closes'

close_times-closed :
    (n : ℕ) (h : SpdyHandle) (closes : ℕ → ℕ)
    → h.is_closed ≡ true
    → close_times n h closes ≡ (h, closes)
unfolding close_times close
close_times-closed zero h closes e = refl
close_times-closed (suc n) h closes e =
    let step : close h closes ≡ (h, closes) = ground (arith, e) in
    ap (λ r. close_times n r.0 r.1) step ∙ close_times-closed n h closes e

-- A handle that is not closed, on a stop channel.
close_times-open :
    (n stop : ℕ) (closes : ℕ → ℕ)
    → (close_times (suc n) (record { stop = some stop; is_closed = false }) closes).1 stop
      ≡ suc (closes stop)
unfolding close_times close close_channel
close_times-open n stop closes =
    ap (λ r. r.1 stop)
      (close_times-closed n (record { stop = some stop; is_closed = true })
        (close_channel stop closes) refl)
    ∙ ground arith

close_times-none :
    (n : ℕ) (closes : ℕ → ℕ)
    → (close_times (suc n) (record { stop = none; is_closed = false }) closes).1 ≡ closes
unfolding close_times close
close_times-none n closes =
    ap (λ r. r.1) (close_times-closed n (record { stop = none; is_closed = true }) closes refl)

abbrev pub has_ports : List Mapping → Bool
has_ports ms = elim (forwarded_ports ms) [ [] ↦ false | p ∷ ports ↦ true ]

-- Whether client-go's port forwarder was made, which then runs until it ends or is stopped.
abbrev pub is_made : Option Text → (List Text → Option Text) → List Mapping → Bool
is_made round_tripper new_forwarder ms = elim (new_forwarder (forwarded_ports ms)) [
  | some e ↦ false
  | none ↦ has_ports ms && elim round_tripper [ some e ↦ false | none ↦ true ]
]

-- Whether Open has given up because its context ended.
abbrev pub gives_up : {g : Signals} → Chosen g → Bool
gives_up (by_ready _ r) = false
gives_up (by_failure _ e f) = false
gives_up (by_context _ e c) = true

-- A handle whose stop channel is open, and is closed once by any positive number of calls of Close; or an
-- error, and the channel was closed, once, if it must be, and else not at all.
abbrev pub IsTunnel : ℕ → ℕ → List Mapping → Bool → (ℕ → ℕ) × Result SpdyHandle → Type 0
IsTunnel n stop ms given_up (closes, ok h) =
    (closes stop ≡ 0) × ((close_times (suc n) h closes).1 stop ≡ (if has_ports ms then 1 else 0))
IsTunnel n stop ms given_up (closes, err e) = closes stop ≡ (if given_up then 1 else 0)

await-IsTunnel :
    (n stop : ℕ) (ms : List Mapping) (g : Signals) (chosen : Chosen g) (closes : ℕ → ℕ)
    → has_ports ms ≡ true
    → closes stop ≡ 0
    → IsTunnel n stop ms (gives_up chosen) (await g chosen stop closes)
unfolding await close_channel
await-IsTunnel n stop ms g (by_ready _ r) closes ports fresh =
    (fresh, ground (arith, close_times-open n stop closes, ports, fresh))
await-IsTunnel n stop ms g (by_failure _ e f) closes ports fresh = ground (arith, fresh)
await-IsTunnel n stop ms g (by_context _ e c) closes ports fresh = ground (arith, fresh)

open_ports-IsTunnel :
    (round_tripper : Option Text) (new_forwarder : List Text → Option Text) (g : Signals)
    (chosen : Chosen g) (n stop : ℕ) (ms : List Mapping) (closes : ℕ → ℕ) (ports : List Text)
    → closes stop ≡ 0
    → forwarded_ports ms ≡ ports
    → IsTunnel n stop ms
        (is_made round_tripper new_forwarder ms && gives_up chosen)
        (open_spdy round_tripper new_forwarder g chosen stop ms closes)
unfolding open_spdy
open_ports-IsTunnel round_tripper new_forwarder g chosen n stop ms closes [] fresh e =
    let none_open : SpdyHandle = record { stop = none; is_closed = false } in
    let same : open_spdy round_tripper new_forwarder g chosen stop ms closes
        ≡ (closes, ok none_open) =
      rw (e, open_spdy) refl in
    subst (IsTunnel n stop ms (is_made round_tripper new_forwarder ms && gives_up chosen))
      (sym same) (fresh, ap (λ c. c stop) (close_times-none n closes) ∙ ground (arith, fresh, e))
open_ports-IsTunnel round_tripper new_forwarder g chosen n stop ms closes (p ∷ ports) fresh e =
    let result = open_spdy round_tripper new_forwarder g chosen stop ms closes in
    let stops : Bool = is_made round_tripper new_forwarder ms && gives_up chosen in
    let failed = λ (m : Text) (same : result ≡ (closes, err m)) (unmade : stops ≡ false).
      subst (IsTunnel n stop ms stops) (sym same) (ground (arith, fresh, unmade)) in
    elim (Option-cases round_tripper) [
      | inr (m, r) ↦
          failed (text "spdy round tripper: " ++ m) (rw (e, open_spdy, r) refl)
            (ground (arith, e, r, Option-cases (new_forwarder (p ∷ ports))))
      | inl r ↦ elim (Option-cases (new_forwarder (p ∷ ports))) [
        | inr (m, f) ↦
            failed (text "new port forwarder: " ++ m) (rw (e, open_spdy, r, f) refl)
              (ground (arith, e, r, f))
        | inl f ↦
            let same : result ≡ await g chosen stop closes = rw (e, open_spdy, r, f) refl in
            let made : stops ≡ gives_up chosen = ground (arith, e, r, f) in
            subst (IsTunnel n stop ms stops) (sym same) (
              subst (λ b. IsTunnel n stop ms b (await g chosen stop closes)) (sym made)
                (await-IsTunnel n stop ms g chosen closes (ground (arith, e)) fresh))
      ]
    ]

-- Whatever the port forwarder and the context signal, the new stop channel of a tunnel is never
-- closed twice, which would panic. When Open returns a handle the channel is open, and however
-- often the handle is closed, at least once, the channel is closed once, if there are ports.
-- When Open gives up because its context ended, it has closed the channel of the port forwarder
-- that it had made, once; on every other error the channel was not closed.
pub open_spdy-IsTunnel :
    (round_tripper : Option Text) (new_forwarder : List Text → Option Text) (g : Signals)
    (chosen : Chosen g) (n stop : ℕ) (ms : List Mapping) (closes : ℕ → ℕ)
    → closes stop ≡ 0
    → IsTunnel n stop ms
        (is_made round_tripper new_forwarder ms && gives_up chosen)
        (open_spdy round_tripper new_forwarder g chosen stop ms closes)
open_spdy-IsTunnel round_tripper new_forwarder g chosen n stop ms closes fresh =
    open_ports-IsTunnel round_tripper new_forwarder g chosen n stop ms closes (forwarded_ports ms)
      fresh refl
