-- ===== src/Server/Events.antt =====
-- internal/server/events.go: the stream of events, on which none is ever sent. Instants and durations are
-- in nanoseconds; the two readings of a time, RFC3339 and a number of seconds, are parameters.
use docker_in_kubernetes.Prelude.{
  ℕ, ◌≤◌, ◌≡◌, refl, ◌⊎◌, inl, inr, Option, none, some, [], ◌∷◌, Text, arith, if◌then◌else◌, leb,
  Option-cases, Bool-cases,
}

unfoldable pub parse_event_time : (Text → Option ℕ) → (Text → Option ℕ) → Text → Option ℕ
parse_event_time rfc3339 unix [] = none
parse_event_time rfc3339 unix (c ∷ s) = elim (rfc3339 (c ∷ s)) [
  | some t ↦ some t
  | none ↦ unix (c ∷ s)
]

-- The instant at which handleEvents returns, begun at `now`, when the request's context ends at `ctx`;
-- `none` is never.
unfoldable pub handle_events : Option ℕ → ℕ → Option ℕ → Option ℕ
handle_events until now ctx = elim until [
  | none ↦ ctx
  | some t ↦
      if leb t now
      then some now
      else elim ctx [ none ↦ some t | some c ↦ if leb c t then some c else some t ]
]

-- The stream ends: with `until` never after the later of that instant and its begin.
pub handle_events_le :
    (t now : ℕ) (ctx : Option ℕ)
    → (e : ℕ) × (handle_events (some t) now ctx ≡ some e) × ((e ≤ t) ⊎ (e ≡ now))
unfolding handle_events
handle_events_le t now ctx = elim (Bool-cases (leb t now)) [
  | inl past ↦ (now, ground (arith, past), inr refl)
  | inr later ↦ elim (Option-cases ctx) [
    | inl c ↦ (t, ground (arith, later, c), inl (omega arith))
    | inr (end, c) ↦ elim (Bool-cases (leb end t)) [
      | inl first ↦ (end, ground (arith, later, c, first), inl (ground (arith, first)))
      | inr last ↦ (t, ground (arith, later, c, last), inl (omega arith))
    ]
  ]
]
