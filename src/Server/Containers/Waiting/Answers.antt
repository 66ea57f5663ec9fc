-- ===== src/Server/Containers/Waiting/Answers.antt =====
-- internal/server/containers.go: what handler wait answers, and when.
use docker_in_kubernetes.Prelude.{
  ℕ, ◌<◌, ◌≡◌, refl, ◌∙◌, ◌⊎◌, inl, inr, Bool, true, false, not, ◌||◌, Option, none, some, Text, ℤ,
  pos, arith, Option-cases, if◌then◌else◌,
}
use mathlib.Core.Path.{subst}
use docker_in_kubernetes.Forwarder.Registry.{close}
use docker_in_kubernetes.K8s.{not_found, done, fails, Outcome-cases, PodError-cases}
use docker_in_kubernetes.Pod.{Pod}
use docker_in_kubernetes.Podspec.Ports.{ok, err}
use docker_in_kubernetes.Server.Pending.{PendingContainer, get_by_ref}
use docker_in_kubernetes.Server.Containers.{exit_code_from_pod}
use docker_in_kubernetes.Server.Containers.Handlers.{Daemon, Context, id_of}
use docker_in_kubernetes.Server.Containers.Stopping.{exit_turn, wait_end}
use docker_in_kubernetes.Server.Containers.Waiting.{
  WaitResponse, answered, removed_message, wait_response, wait_for_exit, wait_rest, wait,
}
use docker_in_kubernetes.Server.Containers.Waiting.Polls.{Undecided, poll_loop_first, poll_loop-ok}

module _ {ℓ} {S : Type ℓ} (context : Context S) where
  -- The verdict of a poll: the pod read has exited with the code, or there is no pod.
  abbrev pub IsVerdict : Text → S → ℤ × Bool → Type 0
  IsVerdict name s (exit, false) =
      (pod : Pod) × (context.pods.get s name ≡ done pod) × (exit_code_from_pod pod ≡ some exit)
  IsVerdict name s (exit, true) = (context.pods.get s name ≡ fails not_found) × (exit ≡ pos 0)

  exit_turn_sound :
      (name : Text) (s : S) (exit : ℤ) (gone : Bool)
      → exit_turn context name s ≡ some (ok (exit, gone))
      → IsVerdict name s (exit, gone)
  unfolding exit_turn
  exit_turn_sound name s exit true h = elim (Outcome-cases (context.pods.get s name)) [
    | inr (e, g) ↦ elim (PodError-cases e) [
      | inl n ↦ ground (arith, g, n)
      | inr (inl (r, m, n)) ↦ ground (arith, g, n)
      | inr (inr (m, n)) ↦ ground (arith, g, n)
    ]
    | inl (pod, g) ↦ elim (Option-cases (exit_code_from_pod pod)) [
      | inl c ↦ ground (arith, g, c)
      | inr (x, c) ↦ ground (arith, g, c)
    ]
  ]
  exit_turn_sound name s exit false h = elim (Outcome-cases (context.pods.get s name)) [
    | inr (e, g) ↦ elim (PodError-cases e) [
      | inl n ↦ ground (arith, g, n)
      | inr (inl (r, m, n)) ↦ ground (arith, g, n)
      | inr (inr (m, n)) ↦ ground (arith, g, n)
    ]
    | inl (pod, g) ↦ elim (Option-cases (exit_code_from_pod pod)) [
      | inl c ↦ ground (arith, g, c)
      | inr (x, c) ↦ (pod, g, ground (arith, g, c))
    ]
  ]

  -- The pod that wait polls: that of a pending container whose start was signalled, or the live one.
  abbrev pub Polled : ℕ → Text → (ℕ → Option Text) → Daemon S → Text → Type 0
  Polled now id started d name =
      ((p : PendingContainer) × ((get_by_ref now id d.pending).1 ≡ some p)
        × (started p.signal ≡ none)
        × (p.spec.name ≡ name))
      ⊎ ((pod : Pod) × ((get_by_ref now id d.pending).1 ≡ none)
          × (context.pods.find_by_id d.cluster id ≡ done pod)
          × (pod.name ≡ name))

  module _ (at : ℕ → S) (cancelled : ℕ → Option Text) where
    wait-Polled :
        (fuel now : ℕ) (id : Text) (removed : Bool) (started : ℕ → Option Text) (d later : Daemon S)
        (name : Text)
        → Polled now id started d name
        → wait context at cancelled fuel now id removed started d later
          ≡ wait_rest context at cancelled fuel name removed later
    unfolding wait
    wait-Polled fuel now id removed started d later name (inl (p, found, s, n)) =
        ground (arith, found, s, n)
    wait-Polled fuel now id removed started d later name (inr (pod, missing, found, n)) =
        ground (arith, missing, found, n)

    -- The container exits, or its pod goes, by a poll within the fuel, and every poll before it asks for
    -- another: then wait answers with that exit code, or with the error that the pod was removed.
    pub wait_first :
        (j fuel now : ℕ) (id : Text) (removed : Bool) (started : ℕ → Option Text)
        (d later : Daemon S) (name : Text) (v : ℤ × Bool)
        → Polled now id started d name
        → j < fuel
        → Undecided (λ k. exit_turn context name (at k)) cancelled 0 j
        → exit_turn context name (at j) ≡ some (ok v)
        → wait context at cancelled fuel now id removed started d later
          ≡ some ((wait_end context name v removed later).0, answered (wait_response v))
    unfolding wait_rest wait_for_exit
    wait_first j fuel now id removed started d later name v polled h before e =
        wait-Polled fuel now id removed started d later name polled
        ∙ rw
            (
              poll_loop_first (λ k. exit_turn context name (at k)) cancelled (ok v) j fuel 0 h
                  before (ground (arith, e)),
              wait_rest,
              wait_for_exit,
            )
            refl

    wait-IsVerdict :
        (fuel : ℕ) (name : Text) (exit : ℤ) (gone : Bool)
        → wait_for_exit context at cancelled fuel name ≡ some (ok (exit, gone))
        → (j : ℕ) × IsVerdict name (at j) (exit, gone)
    unfolding wait_for_exit
    wait-IsVerdict fuel name exit gone h =
        let (j, e) =
          poll_loop-ok (λ k. exit_turn context name (at k)) cancelled (exit, gone) fuel 0 h in
        (j, exit_turn_sound name (at j) exit gone e)

    -- What an answer means: the verdict of a poll of the container's pod, and with condition=removed the end of the pod and of
    -- its forwarder, unless the pod was gone already.
    pub record IsAnswered (now : ℕ) (id : Text) (started : ℕ → Option Text) (d : Daemon S)
        (removed : Bool) (later after : Daemon S) (resp : WaitResponse) : Type ℓ where
      pub name : Text
      pub polled : Polled now id started d name
      pub poll : ℕ
      pub gone : Bool
      pub verdict : IsVerdict name (at poll) (resp.status_code, gone)
      pub error : resp.error ≡ (if gone then some removed_message else none)
      pub effect :
          ((gone || not removed ≡ true) × (after ≡ later))
          ⊎ ((gone || not removed ≡ false)
              × (after.cluster ≡ (context.pods.delete later.cluster name (pos 0)).0)
              × (after.registry ≡ (close context.close_error later.registry (id_of context name)).0)
              × (after.pending ≡ later.pending))

    wait_end_lem :
        (now : ℕ) (id : Text) (started : ℕ → Option Text) (d : Daemon S) (name : Text) (exit : ℤ)
        (gone removed : Bool) (later : Daemon S) (j : ℕ)
        → Polled now id started d name
        → IsVerdict name (at j) (exit, gone)
        → IsAnswered now id started d removed later
            (wait_end context name (exit, gone) removed later).0
            (wait_response (exit, gone))
    unfolding wait_end
    wait_end_lem now id started d name exit true removed later j q v = record {
      name = name;
      polled = q;
      poll = j;
      gone = true;
      verdict = v;
      error = refl;
      effect = inl (refl, refl);
    }
    wait_end_lem now id started d name exit false false later j q v = record {
      name = name;
      polled = q;
      poll = j;
      gone = false;
      verdict = v;
      error = refl;
      effect = inl (refl, refl);
    }
    wait_end_lem now id started d name exit false true later j q v = record {
      name = name;
      polled = q;
      poll = j;
      gone = false;
      verdict = v;
      error = refl;
      effect = inr (refl, refl, refl, refl);
    }

    wait_rest-answered :
        (fuel now : ℕ) (id : Text) (started : ℕ → Option Text) (d : Daemon S) (name : Text)
        (removed : Bool) (later after : Daemon S) (resp : WaitResponse)
        → Polled now id started d name
        → wait_rest context at cancelled fuel name removed later ≡ some (after, answered resp)
        → IsAnswered now id started d removed later after resp
    unfolding wait_rest
    wait_rest-answered fuel now id started d name removed later after resp q h =
        elim (Option-cases (wait_for_exit context at cancelled fuel name)) [
          | inl n ↦ ground (arith, n)
          | inr (err e, v) ↦ ground (arith, v)
          | inr (ok (exit, gone), v) ↦
              let answer =
                wait_end_lem now id started d name exit gone removed later
                  (wait-IsVerdict fuel name exit gone v).0 q
                  (wait-IsVerdict fuel name exit gone v).1 in
              let same_state : (wait_end context name (exit, gone) removed later).0 ≡ after =
                ground (arith, v, h) in
              let same_answer : wait_response (exit, gone) ≡ resp = ground (arith, v, h) in
              subst (λ a. IsAnswered now id started d removed later a resp) same_state
                (subst
                  (λ r.
                    IsAnswered now id started d removed later
                      (wait_end context name (exit, gone) removed later).0 r)
                  same_answer answer)
        ]

    -- An answer of wait is true: the pod of the container, read at some poll, had exited with this code;
    -- or it was gone, and the answer says so. With condition=removed a pod that exited is deleted and its
    -- forwarder closed; otherwise the handler leaves the daemon as it is.
    pub wait-answered :
        (fuel now : ℕ) (id : Text) (removed : Bool) (started : ℕ → Option Text)
        (d later after : Daemon S) (resp : WaitResponse)
        → wait context at cancelled fuel now id removed started d later
          ≡ some (after, answered resp)
        → IsAnswered now id started d removed later after resp
    unfolding wait
    wait-answered fuel now id removed started d later after resp h =
        elim (Option-cases (get_by_ref now id d.pending).1) [
          | inr (p, found) ↦ elim (Option-cases (started p.signal)) [
            | inr (e, s) ↦ ground (arith, found, s)
            | inl s ↦
                wait_rest-answered fuel now id started d p.spec.name removed later after resp
                  (inl (p, found, s, refl)) (ground (arith, found, s))
          ]
          | inl missing ↦ elim (Outcome-cases (context.pods.find_by_id d.cluster id)) [
            | inl (pod, f) ↦
                wait_rest-answered fuel now id started d pod.name removed later after resp
                  (inr (pod, missing, f, refl)) (ground (arith, missing, f))
            | inr (e, f) ↦ ground (arith, missing, f, PodError-cases e)
          ]
        ]
