-- ===== src/Server/Pending/Signals.antt =====
-- internal/server/pending.go: markStarted, markFailed and waitForStart.
use docker_in_kubernetes.Prelude.{
  ℕ, ◌<◌, true, false, Option, none, some, ◌≡◌, refl, ◌⊎◌, inl, inr, Text, arith, Bool-cases, ◌==◌,
}
use docker_in_kubernetes.Server.Pending.{
  Signal, is_settled, mark_started, mark_failed, signal_at, WaitForStart, by_signal,
}

-- A signal is open and unset, or its channel was closed once for just one of the two outcomes.
pub data IsSignal : Signal → Type 0 where
  waiting : IsSignal (record { started = false; failure = none; closes = 0 })
  was_started : IsSignal (record { started = true; failure = none; closes = 1 })
  was_failed : (e : Text) → IsSignal (record { started = false; failure = some e; closes = 1 })

-- Marking keeps the signal well formed: the channel is never closed twice, which would panic, and a
-- container is never both started and failed.
pub mark-IsSignal :
    (g : Signal) (e : Text) → IsSignal g → IsSignal (mark_started g) × IsSignal (mark_failed e g)
unfolding mark_started mark_failed
mark-IsSignal g e waiting = (was_started, was_failed e)
mark-IsSignal g e was_started = (was_started, was_started)
mark-IsSignal g e (was_failed d) = (was_failed d, was_failed d)

-- A signal whose channel was closed, once: whoever waits for it goes on.
abbrev pub IsWoken : Signal → Type 0
IsWoken g = IsSignal g × (g.closes ≡ 1)

pub settled-IsWoken : (g : Signal) → IsSignal g → is_settled g ≡ true → IsWoken g
settled-IsWoken g waiting h = ground arith
settled-IsWoken g was_started h = (was_started, refl)
settled-IsWoken g (was_failed e) h = (was_failed e, refl)

-- Writing a signal by a mark keeps every signal well formed.
pub signal_at-IsSignal :
    (a : ℕ) (f : Signal → Signal) (signals : ℕ → Signal)
    → ((g : Signal) → IsSignal g → IsSignal (f g))
    → ((b : ℕ) → IsSignal (signals b))
    → (b : ℕ) → IsSignal (signal_at a f signals b)
unfolding signal_at
signal_at-IsSignal a f signals h w b = elim (Bool-cases (b == a)) [
  | inl e ↦ rw (e, signal_at) (h (signals b) (w b))
  | inr e ↦ rw (e, signal_at) (w b)
]

-- The first mark wins: later ones change nothing.
pub mark_first :
    (g : Signal) (d e : Text)
    → IsSignal g
    → (mark_failed e (mark_started g) ≡ mark_started g)
      × (mark_started (mark_failed d g) ≡ mark_failed d g)
      × (mark_failed e (mark_failed d g) ≡ mark_failed d g)
unfolding mark_started mark_failed
mark_first g d e waiting = (refl, refl, refl)
mark_first g d e was_started = (refl, refl, refl)
mark_first g d e (was_failed c) = (refl, refl, refl)

settled :
    (g : Signal)
    → IsSignal g
    → 0 < g.closes
    → ((g.started ≡ true) × (g.failure ≡ none)) ⊎ ((e : Text) × (g.failure ≡ some e))
settled g waiting h = ground arith
settled g was_started h = inl (refl, refl)
settled g (was_failed e) h = inr (e, refl)

-- A wait under a context that is not done returns only after a mark: without an error if
-- the container was started, and with the error of the mark if it was failed.
pub wait_for_start_lem :
    (g : Signal) (out : Option Text)
    → IsSignal g
    → WaitForStart g none out
    → ((g.started ≡ true) × (out ≡ none)) ⊎ ((e : Text) × (g.failure ≡ some e) × (out ≡ some e))
wait_for_start_lem g out w (by_signal _ _ closed) = elim (settled g w closed) [
  | inl (s, n) ↦ inl (s, n)
  | inr (e, f) ↦ inr (e, f, f)
]
