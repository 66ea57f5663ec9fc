-- ===== src/Server/Pending/Reaping.antt =====
-- internal/server/pending.go: what reapLocked drops and keeps, and whom it wakes.
use docker_in_kubernetes.Prelude.{
  ℕ, ◌<◌, true, false, ◌≢◌, none, some, [], ◌∷◌, ◌≡◌, refl, sym, ◌⊎◌, inl, inr, Text, Dict, lookup,
  arith, if◌then◌else◌, Bool-cases, Option-cases, Distinct, All, ==_iff, text_eq, text_eq_iff,
  lookup-All, ◌==◌,
}
use docker_in_kubernetes.Server.Pending.{
  Signal, PendingContainer, PendingStore, mark_failed, err_pending_expired, is_expired, reap_loop,
  reap, signal_at, is_settled, get_by_ref,
}
use docker_in_kubernetes.Server.Pending.Signals.{
  IsSignal, IsWoken, mark-IsSignal, settled-IsWoken, signal_at-IsSignal,
}

module _ (now ttl : ℕ) where
  pub reap_loop-All :
      (P : Text × PendingContainer → Type 0) (m : Dict PendingContainer) (signals : ℕ → Signal)
      → All P m
      → All P (reap_loop now ttl m signals).0
  unfolding reap_loop
  reap_loop-All P [] signals h = h
  reap_loop-All P ((id, p) ∷ m) signals (h, hs) = elim (Bool-cases (is_expired now ttl p)) [
    | inl e ↦
        rw (e) (reap_loop-All P m (signal_at p.signal (mark_failed err_pending_expired) signals) hs)
    | inr e ↦ rw (e) (h, reap_loop-All P m signals hs)
  ]

  -- No entry left is expired.
  reap_loop-fresh :
      (m : Dict PendingContainer) (signals : ℕ → Signal)
      → All (λ e. is_expired now ttl e.1 ≡ false) (reap_loop now ttl m signals).0
  unfolding reap_loop
  reap_loop-fresh [] signals = tt
  reap_loop-fresh ((id, p) ∷ m) signals = elim (Bool-cases (is_expired now ttl p)) [
    | inl e ↦
        rw (e) (reap_loop-fresh m (signal_at p.signal (mark_failed err_pending_expired) signals))
    | inr e ↦ rw (e) (e, reap_loop-fresh m signals)
  ]

  pub reap_loop-lookup :
      (id : Text) (m : Dict PendingContainer) (signals : ℕ → Signal) (p : PendingContainer)
      → lookup id m ≡ some p
      → is_expired now ttl p ≡ false
      → lookup id (reap_loop now ttl m signals).0 ≡ some p
  unfolding reap_loop lookup
  reap_loop-lookup id [] signals p h k = ground arith
  reap_loop-lookup id ((j, q) ∷ m) signals p h k =
      let signals' = signal_at q.signal (mark_failed err_pending_expired) signals in
      ground (arith, reap_loop-lookup id m signals p, reap_loop-lookup id m signals' p)

  -- A signal that was settled stays as it is.
  reap_loop-settled :
      (a : ℕ) (m : Dict PendingContainer) (signals : ℕ → Signal)
      → is_settled (signals a) ≡ true
      → (reap_loop now ttl m signals).1 a ≡ signals a
  unfolding reap_loop signal_at mark_failed
  reap_loop-settled a [] signals h = refl
  reap_loop-settled a ((j, q) ∷ m) signals h =
      let signals' = signal_at q.signal (mark_failed err_pending_expired) signals in
      let same : signals' a ≡ signals a = ground (arith, ==_iff a q.signal) in
      ground (arith, reap_loop-settled a m signals h, reap_loop-settled a m signals')

  -- The signal of an entry that is dropped is settled.
  reap_loop-woken :
      (id : Text) (m : Dict PendingContainer) (signals : ℕ → Signal) (p : PendingContainer)
      → lookup id m ≡ some p
      → is_expired now ttl p ≡ true
      → is_settled ((reap_loop now ttl m signals).1 p.signal) ≡ true
  unfolding reap_loop lookup signal_at mark_failed
  reap_loop-woken id [] signals p h k = ground arith
  reap_loop-woken id ((j, q) ∷ m) signals p h k =
      let signals' = signal_at q.signal (mark_failed err_pending_expired) signals in
      let here : is_settled (signals' q.signal) ≡ true = ground (arith, ==_iff q.signal q.signal) in
      elim (Bool-cases (text_eq j id)) [
        | inl e ↦
            let same : q ≡ p = ground (arith, e) in
            let kept = reap_loop-settled q.signal m signals' here in
            ground (arith, e, same, kept, here)
        | inr e ↦ ground (arith, e, reap_loop-woken id m signals p, reap_loop-woken id m signals' p)
      ]

  pub reap_loop-IsSignal :
      (m : Dict PendingContainer) (signals : ℕ → Signal)
      → ((a : ℕ) → IsSignal (signals a))
      → (a : ℕ) → IsSignal ((reap_loop now ttl m signals).1 a)
  unfolding reap_loop
  reap_loop-IsSignal [] signals w a = w a
  reap_loop-IsSignal ((j, q) ∷ m) signals w a =
      let mark = mark_failed err_pending_expired in
      elim (Bool-cases (is_expired now ttl q)) [
        | inl e ↦ rw (e) (
            reap_loop-IsSignal m (signal_at q.signal mark signals)
              (signal_at-IsSignal q.signal mark signals
                (λ g good. (mark-IsSignal g err_pending_expired good).1) w)
              a)
        | inr e ↦ rw (e) (reap_loop-IsSignal m signals w a)
      ]

  reap_loop-found :
      (id : Text) (m : Dict PendingContainer) (signals : ℕ → Signal) (p : PendingContainer)
      → Distinct m
      → lookup id (reap_loop now ttl m signals).0 ≡ some p
      → lookup id m ≡ some p
  unfolding reap_loop lookup
  reap_loop-found id [] signals p d h = ground arith
  reap_loop-found id ((j, q) ∷ m) signals p (d, ds) h =
      let signals' = signal_at q.signal (mark_failed err_pending_expired) signals in
      elim (Bool-cases (is_expired now ttl q)) [
        | inr e ↦ ground (arith, e, reap_loop-found id m signals p ds)
        | inl e ↦
            let h' : lookup id (reap_loop now ttl m signals').0 ≡ some p = ground (arith, e) in
            let other =
              lookup-All (λ x. x.0 ≢ j) id (reap_loop now ttl m signals').0 p
                (reap_loop-All (λ x. x.0 ≢ j) m signals' d) h' in
            let rest = reap_loop-found id m signals' p ds h' in
            elim (Bool-cases (text_eq j id)) [
              | inl k ↦ elim (other (sym ((text_eq_iff j id).0 k))) [ ]
              | inr k ↦ ground (arith, rest, k)
            ]
      ]

-- Looking a reference up, which reaps first, keeps every signal well formed.
pub get_by_ref-IsSignal :
    (now : ℕ) (ref : Text) (s : PendingStore)
    → ((a : ℕ) → IsSignal (s.signals a))
    → (a : ℕ) → IsSignal ((get_by_ref now ref s).0.signals a)
unfolding get_by_ref reap
get_by_ref-IsSignal now ref s w a = elim (Bool-cases (s.ttl == 0)) [
  | inl e ↦ rw (e) (w a)
  | inr e ↦ rw (e) (reap_loop-IsSignal now s.ttl s.m s.signals w a)
]

-- With a TTL, where keys are distinct and every signal is open and unmarked or was closed once,
-- reaping takes just the entries older than the TTL from the store, and leaves the channel of
-- every entry that it takes closed once, so that whoever waits for the entry goes on.
pub reap_lem :
    (now : ℕ) (s : PendingStore) (id : Text) (p : PendingContainer)
    → 0 < s.ttl
    → Distinct s.m
    → lookup id s.m ≡ some p
    → ((a : ℕ) → IsSignal (s.signals a))
    → (lookup id (reap now s).m ≡ (if is_expired now s.ttl p then none else some p))
      × ((is_expired now s.ttl p ≡ false) ⊎ IsWoken ((reap now s).signals p.signal))
unfolding reap
reap_lem now s id p t d h w =
    let kept = (reap_loop now s.ttl s.m s.signals).0 in
    let woken : (is_expired now s.ttl p ≡ false) ⊎ IsWoken ((reap now s).signals p.signal) =
      elim (Bool-cases (is_expired now s.ttl p)) [
        | inr e ↦ inl e
        | inl e ↦
            let go = reap_loop-woken now s.ttl id s.m s.signals p h e in
            let woken =
              settled-IsWoken ((reap_loop now s.ttl s.m s.signals).1 p.signal)
                (reap_loop-IsSignal now s.ttl s.m s.signals w p.signal) go in
            let some_ttl : (s.ttl == 0) ≡ false = ground arith in inr (rw (some_ttl) woken)
      ] in
    elim (Option-cases (lookup id kept)) [
      | inl k ↦ (ground (arith, k, reap_loop-lookup now s.ttl id s.m s.signals p h), woken)
      | inr (q, k) ↦
          let fresh =
            lookup-All (λ e. is_expired now s.ttl e.1 ≡ false) id kept q
              (reap_loop-fresh now s.ttl s.m s.signals) k in
          let found = reap_loop-found now s.ttl id s.m s.signals q d k in
          (ground (arith, k, fresh, found), woken)
    ]
