-- ===== src/K8s/Ready.antt =====
-- internal/k8s/pods.go: the end of WaitForReady.
use docker_in_kubernetes.Prelude.{
  ℕ, zero, suc, ◌+◌, ◌*◌, ◌≤◌, ◌<◌, true, ◌||◌, Option, none, some, ◌≡◌, ◌≢◌, inl, inr, Text, arith,
  ltb, lt→ltb, Bool-cases, Option-cases,
}
use docker_in_kubernetes.Pod.{Pod, Phase}
use docker_in_kubernetes.K8s.{
  Api, Outcome-cases, done, get, is_ready, is_phase, ready_verdict, wait_loop,
}

module _ {ℓ} {S : Type ℓ} (api : Api S) (at : ℕ → S) (now : ℕ → ℕ) (cancelled : ℕ → Option Text)
    (timeout : Text) where
  -- One turn of the loop returns when the clock has passed the deadline.
  wait_loop_late :
      (deadline fuel : ℕ) (name : Text) (i : ℕ)
      → deadline < now i
      → wait_loop api at now cancelled timeout deadline (suc fuel) name i ≢ none
  unfolding wait_loop
  wait_loop_late deadline fuel name i late h = elim (Outcome-cases (get api (at i) name)) [
    | inr (e, g) ↦ ground (arith, g)
    | inl (pod, g) ↦ elim (Option-cases (ready_verdict api name pod)) [
      | inr (v, r) ↦ ground (arith, g, r)
      | inl r ↦ ground (arith, g, r, lt→ltb deadline (now i) late)
    ]
  ]

  -- One turn returns if the turns after it do.
  wait_loop_next :
      (deadline fuel : ℕ) (name : Text) (i : ℕ)
      → wait_loop api at now cancelled timeout deadline fuel name (suc i) ≢ none
      → wait_loop api at now cancelled timeout deadline (suc fuel) name i ≢ none
  unfolding wait_loop
  wait_loop_next deadline fuel name i later h = elim (Outcome-cases (get api (at i) name)) [
    | inr (e, g) ↦ ground (arith, g)
    | inl (pod, g) ↦ elim (Option-cases (ready_verdict api name pod)) [
      | inr (v, r) ↦ ground (arith, g, r)
      | inl r ↦ elim (Bool-cases (ltb deadline (now i))) [
        | inl late ↦ ground (arith, g, r, late)
        | inr early ↦ elim (Option-cases (cancelled i)) [
          | inr (e, c) ↦ ground (arith, g, r, early, c)
          | inl c ↦ later (ground (arith, g, r, early, c))
        ]
      ]
    ]
  ]

  -- The wait ends: with a clock that moves on by at least `interval` from a poll to the next, the
  -- loop returns within any fuel whose polls reach past the deadline.
  pub wait_loop_total :
      (start interval deadline : ℕ)
      → ((i : ℕ) → start + i * interval ≤ now i)
      → (fuel : ℕ) (name : Text) (i : ℕ) → deadline < start + (i + fuel) * interval
      → wait_loop api at now cancelled timeout deadline (suc fuel) name i ≢ none
  wait_loop_total start interval deadline clock zero name i far =
      wait_loop_late deadline zero name i (ground (arith, clock i))
  wait_loop_total start interval deadline clock (suc fuel) name i far =
      wait_loop_next deadline (suc fuel) name i
        (wait_loop_total start interval deadline clock fuel name (suc i) (ground arith))

  -- A wait that ends well has read, at some poll, a pod that was ready or had succeeded.
  pub wait_loop-done :
      (deadline fuel : ℕ) (name : Text) (i : ℕ)
      → wait_loop api at now cancelled timeout deadline fuel name i ≡ some (done tt)
      → (j : ℕ) × (pod : Pod) × (get api (at j) name ≡ done pod)
        × (is_ready pod || is_phase pod.status.phase Phase.succeeded ≡ true)
  unfolding wait_loop ready_verdict
  wait_loop-done deadline zero name i h = ground arith
  wait_loop-done deadline (suc fuel) name i h = elim (Outcome-cases (get api (at i) name)) [
    | inr (e, g) ↦ ground (arith, g)
    | inl (pod, g) ↦ elim (Bool-cases (is_ready pod || is_phase pod.status.phase Phase.succeeded)) [
      | inl ready ↦ (i, pod, g, ready)
      | inr unready ↦ wait_loop-done deadline fuel name (suc i) (ground (arith, g, unready))
    ]
  ]
