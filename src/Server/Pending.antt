-- ===== src/Server/Pending.antt =====
-- internal/server/pending.go: the containers created and not started. Each holds the address of its
-- signal (its mutex, flags and channel), because attach and wait keep the entry after it has left the
-- store. Instants are numbers, and the mutex makes each method of the store one step.
pub mod Signals
pub mod Reaping
pub mod Names
pub mod Reserved
use docker_in_kubernetes.Prelude.{
  ℕ, zero, suc, ◌+◌, ◌<◌, Bool, true, false, not, ◌&&◌, ◌||◌, Option, none, some, List, [], ◌∷◌,
  map, ◌≡◌, Text, text, Dict, lookup, insert, delete, if◌then◌else◌, ltb, ◌==◌, text_eq,
}
use docker_in_kubernetes.Pod.{Pod}
use docker_in_kubernetes.Podspec.Identity.{short_id}
use docker_in_kubernetes.Podspec.Ports.{PortMapping}

-- What markStarted and markFailed write; `closes` counts how often the channel was closed.
pub record Signal : Type 0 where
  pub started : Bool
  pub failure : Option Text
  pub closes : ℕ

abbrev pub new_signal : Signal
new_signal = record { started = false; failure = none; closes = 0 }

pub record PendingContainer : Type 0 where
  pub id : Text
  pub docker_name : Text
  pub spec : Pod
  pub mappings : List PortMapping
  pub created_at : ℕ
  pub signal : ℕ

abbrev pub is_settled : Signal → Bool
is_settled g = g.started || elim g.failure [ none ↦ false | some e ↦ true ]

unfoldable pub mark_started : Signal → Signal
mark_started g = if is_settled g then g else record g { started = true; closes = suc g.closes }

unfoldable pub mark_failed : Text → Signal → Signal
mark_failed e g = if is_settled g then g else record g { failure = some e; closes = suc g.closes }

-- waitForStart under a context whose error, once it is done, is `ctx`. When both channels are ready
-- the select may take either.
pub data WaitForStart : Signal → Option Text → Option Text → Type 0 where
  by_signal : (g : Signal) (ctx : Option Text) → 0 < g.closes → WaitForStart g ctx g.failure
  by_context : (g : Signal) (e : Text) → WaitForStart g (some e) (some e)

pub record PendingStore : Type 0 where
  pub m : Dict PendingContainer
  pub ttl : ℕ
  pub signals : ℕ → Signal

abbrev pub new_pending_store : ℕ → (ℕ → Signal) → PendingStore
new_pending_store ttl signals = record { m = []; ttl = ttl; signals = signals }

-- Writing one signal.
unfoldable pub signal_at : ℕ → (Signal → Signal) → (ℕ → Signal) → ℕ → Signal
signal_at a f signals b = if b == a then f (signals b) else signals b

abbrev pub mark_entry_started : PendingContainer → PendingStore → PendingStore
mark_entry_started p s = record s { signals = signal_at p.signal mark_started s.signals }

abbrev pub mark_entry_failed : PendingContainer → Text → PendingStore → PendingStore
mark_entry_failed p e s = record s { signals = signal_at p.signal (mark_failed e) s.signals }

abbrev pub err_pending_removed : Text
err_pending_removed = text "pending container removed before start"

abbrev pub err_pending_expired : Text
err_pending_expired = text "pending container expired before start"

-- CreatedAt is before the instant `now` less the TTL.
abbrev pub is_expired : ℕ → ℕ → PendingContainer → Bool
is_expired now ttl p = ltb (p.created_at + ttl) now

unfoldable pub reap_loop :
    ℕ → ℕ → Dict PendingContainer → (ℕ → Signal) → Dict PendingContainer × (ℕ → Signal)
reap_loop now ttl [] signals = ([], signals)
reap_loop now ttl ((id, p) ∷ m) signals =
    let dropped =
      reap_loop now ttl m (signal_at p.signal (mark_failed err_pending_expired) signals) in
    let (kept, signals') = reap_loop now ttl m signals in
    if is_expired now ttl p then dropped else ((id, p) ∷ kept, signals')

-- Method reapLocked.
unfoldable pub reap : ℕ → PendingStore → PendingStore
unfolding reap_loop
reap now s =
    let (kept, signals) = reap_loop now s.ttl s.m s.signals in
    if s.ttl == 0 then s else record s { m = kept; signals = signals }

unfoldable pub refers : Text → Text → PendingContainer → Bool
refers ref id p = text_eq (short_id id) ref || text_eq p.spec.name ref || text_eq p.docker_name ref

unfoldable pub find_loop : Text → Dict PendingContainer → Option PendingContainer
unfolding refers
find_loop ref [] = none
find_loop ref ((id, p) ∷ m) = let rest = find_loop ref m in if refers ref id p then some p else rest

-- Method findLocked.
unfoldable pub find : Text → Dict PendingContainer → Option PendingContainer
unfolding find_loop
find ref m = elim (lookup ref m) [ some p ↦ some p | none ↦ find_loop ref m ]

unfoldable pub put : PendingContainer → PendingStore → PendingStore
put p s = record s { m = insert p.id p s.m }

-- The two checks of Method reserve, on the entries left.
unfoldable pub is_free : PendingContainer → Text → Dict PendingContainer → Bool
unfolding find
is_free p docker_name m =
    let named : Bool = elim docker_name [
      | [] ↦ false
      | c ∷ cs ↦ elim (find (c ∷ cs) m) [ none ↦ false | some q ↦ true ]
    ] in
    let exists : Bool = elim (lookup p.id m) [ none ↦ false | some q ↦ true ] in
    not named && not exists

unfoldable pub reserve : ℕ → PendingContainer → Text → PendingStore → PendingStore × Bool
unfolding reap is_free put
reserve now p docker_name s =
    let s' = reap now s in if is_free p docker_name s'.m then (put p s', true) else (s', false)

unfoldable pub get_by_ref : ℕ → Text → PendingStore → PendingStore × Option PendingContainer
unfolding reap find
get_by_ref now ref s = let s' = reap now s in (s', find ref s'.m)

unfoldable pub remove : Text → PendingStore → PendingStore
remove id s = record s { m = delete id s.m }

unfoldable pub list : ℕ → PendingStore → PendingStore × List PendingContainer
unfolding reap
list now s = let s' = reap now s in (s', map (λ e. e.1) s'.m)
