-- ===== src/Server/Containers/Waiting.antt =====
-- internal/server/containers.go: handler wait, and the loops that poll a pod until its container has
-- exited (waitForExit) or started (waitForContainerStarted). At the poll i the cluster is `at i`, and
-- `cancelled i` is the error of a context that ends in the pause after it. Fuel bounds the polls: the
-- loops of the source have no bound but the context's.
pub mod Polls
pub mod Answers
pub mod Started
use docker_in_kubernetes.Prelude.{
  ℕ, zero, suc, Bool, true, false, ◌⊎◌, inl, inr, Option, none, some, List, [], ◌∷◌, ◌++◌, Text,
  text, ℤ, pos,
}
use docker_in_kubernetes.K8s.{
  PodStore, PodError, not_found, failed, Outcome, done, fails, error_text,
  fatal_container_waiting_state,
}
use docker_in_kubernetes.Pod.{Pod, ContainerState}
use docker_in_kubernetes.Podspec.Ports.{Result, ok, err}
use docker_in_kubernetes.Server.Pending.{PendingContainer, get_by_ref}
use docker_in_kubernetes.Server.Reply.{Reply, write_error}
use docker_in_kubernetes.Server.Containers.Handlers.{Daemon, Context, no_such_container}
use docker_in_kubernetes.Server.Containers.Stopping.{exit_turn, wait_end}

-- dockerapi.WaitResponse, with the message of its error.
pub record WaitResponse : Type 0 where
  pub status_code : ℤ
  pub error : Option Text

-- How wait ends: refused before its headers, with the status 200 and no body, or with an answer.
pub data WaitReply : Type 0 where
  refused : Reply Text → WaitReply
  no_body : WaitReply
  answered : WaitResponse → WaitReply

abbrev pub removed_message : Text
removed_message = text "container was removed before exit was observed"

abbrev pub wait_response : ℤ × Bool → WaitResponse
wait_response (exit, true) = record { status_code = exit; error = some removed_message }
wait_response (exit, false) = record { status_code = exit; error = none }

-- The scan of the container states: whether the first that runs or has ended has ended.
unfoldable pub started_state : List ContainerState → Option Bool
started_state [] = none
started_state (cs ∷ states) =
    let rest = started_state states in
    elim cs.running [
      | true ↦ some false
      | false ↦ elim cs.terminated [ some t ↦ some true | none ↦ rest ]
    ]

module _ {ℓ} {S : Type ℓ} (context : Context S) where
  -- resolvePod: the pod, or the reply that was written.
  unfoldable pub resolve_pod : Text → S → Reply Text ⊎ Pod
  resolve_pod id s = elim (context.pods.find_by_id s id) [
    | fails not_found ↦ inl (write_error 404 (no_such_container id))
    | fails e ↦ inl (write_error 500 (error_text e))
    | done pod ↦ inr pod
  ]

  -- One turn of waitForContainerStarted: whether the container has ended, or an error; or another turn.
  unfoldable pub started_turn : Text → S → Option (Result Bool)
  unfolding started_state
  started_turn name s = elim (context.pods.get s name) [
    | fails e ↦ some (err (error_text e))
    | done pod ↦ elim (started_state pod.status.container_statuses) [
      | some terminated ↦ some (ok terminated)
      | none ↦ elim (fatal_container_waiting_state pod) [
        | some ([], message) ↦ none
        | some (c ∷ reason, message) ↦ some (
            err (
              text "container "
              ++ name
              ++ text " failed to start: "
              ++ (c ∷ reason)
              ++ text ": "
              ++ message))
        | none ↦ none
      ]
    ]
  ]

-- A loop that polls: the first verdict of a turn, or the error of the context.
unfoldable pub poll_loop {ℓ} :
    {A : Type ℓ} → (ℕ → Option (Result A)) → (ℕ → Option Text) → ℕ → ℕ → Option (Result A)
poll_loop turn cancelled zero i = none
poll_loop turn cancelled (suc fuel) i =
    let rest = poll_loop turn cancelled fuel (suc i) in
    elim (turn i) [
      | some verdict ↦ some verdict
      | none ↦ elim (cancelled i) [ some e ↦ some (err e) | none ↦ rest ]
    ]

module _ {ℓ} {S : Type ℓ} (context : Context S) (at : ℕ → S) (cancelled : ℕ → Option Text) where
  unfoldable pub wait_for_exit : ℕ → Text → Option (Result (ℤ × Bool))
  unfolding poll_loop exit_turn
  wait_for_exit fuel name = poll_loop (λ i. exit_turn context name (at i)) cancelled fuel 0

  unfoldable pub wait_for_container_started : ℕ → Text → Option (Result Bool)
  unfolding poll_loop started_turn
  wait_for_container_started fuel name =
      poll_loop (λ i. started_turn context name (at i)) cancelled fuel 0

  -- Handler wait from its headers on. Other handlers run while it polls, so that the daemon stands at
  -- `later` when the loop has returned.
  unfoldable pub wait_rest : ℕ → Text → Bool → Daemon S → Option (Daemon S × WaitReply)
  unfolding wait_for_exit
  wait_rest fuel name removed later = elim (wait_for_exit fuel name) [
    | none ↦ none
    | some (err e) ↦ some (later, no_body)
    | some (ok (exit, gone)) ↦ some (
      (wait_end context name (exit, gone) removed later).0,
      answered (wait_response (exit, gone)),
    )
  ]

  -- Handler wait. `started` is what waitForStart returns of the signal at an address, for a pending
  -- container.
  unfoldable pub wait :
      ℕ → ℕ → Text → Bool → (ℕ → Option Text) → Daemon S → Daemon S → Option (Daemon S × WaitReply)
  unfolding wait_rest
  wait fuel now id removed started d later =
      let (pending, found) = get_by_ref now id d.pending in
      let d' = record d { pending = pending } in
      elim found [
        | some p ↦ elim (started p.signal) [
          | some e ↦ some (later, no_body)
          | none ↦ wait_rest fuel p.spec.name removed later
        ]
        | none ↦ elim (context.pods.find_by_id d.cluster id) [
          | fails not_found ↦ some (d', refused (write_error 404 (no_such_container id)))
          | fails e ↦ some (d', refused (write_error 500 (error_text e)))
          | done pod ↦ wait_rest fuel pod.name removed later
        ]
      ]
