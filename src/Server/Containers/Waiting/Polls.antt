-- ===== src/Server/Containers/Waiting/Polls.antt =====
-- internal/server/containers.go: the loops of waitForExit and waitForContainerStarted give the first
-- verdict of a poll.
use docker_in_kubernetes.Prelude.{
  ℕ, zero, suc, ◌+◌, ◌≤◌, ◌<◌, ◌≡◌, Option, none, some, inl, inr, Text, arith, Option-cases,
}
use docker_in_kubernetes.Podspec.Ports.{Result, ok}
use docker_in_kubernetes.Server.Containers.Waiting.{poll_loop}

module _ {ℓ} {A : Type ℓ} (turn : ℕ → Option (Result A)) (cancelled : ℕ → Option Text) where
  -- The polls before the one at `i + j` ask for another turn, in a context that is not done.
  abbrev pub Undecided : ℕ → ℕ → Type ℓ
  Undecided i j = (k : ℕ) → i ≤ k → k < i + j → (turn k ≡ none) × (cancelled k ≡ none)

  pub poll_loop_first :
      (v : Result A) (j fuel i : ℕ)
      → j < fuel
      → Undecided i j
      → turn (i + j) ≡ some v
      → poll_loop turn cancelled fuel i ≡ some v
  unfolding poll_loop
  poll_loop_first v j zero i h before e = ground arith
  poll_loop_first v zero (suc fuel) i h before e = ground (arith, e)
  poll_loop_first v (suc j) (suc fuel) i h before e =
      let (t, c) = before i (omega arith) (omega arith) in
      let later : poll_loop turn cancelled fuel (suc i) ≡ some v =
        poll_loop_first v j fuel (suc i) (omega arith)
          (λ k lo hi. before k (omega arith) (omega arith)) (ground (arith, e)) in
      ground (arith, t, c, later)

  pub poll_loop-ok :
      (a : A) (fuel i : ℕ)
      → poll_loop turn cancelled fuel i ≡ some (ok a)
      → (j : ℕ) × (turn j ≡ some (ok a))
  unfolding poll_loop
  poll_loop-ok a zero i h = ground arith
  poll_loop-ok a (suc fuel) i h = elim (Option-cases (turn i)) [
    | inr (v, t) ↦ (i, ground (arith, t))
    | inl t ↦ elim (Option-cases (cancelled i)) [
      | inr (e, c) ↦ ground (arith, t, c)
      | inl c ↦ poll_loop-ok a fuel (suc i) (ground (arith, t, c))
    ]
  ]
