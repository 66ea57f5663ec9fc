-- ===== src/Server/Containers/Attaching/Modes.antt =====
-- internal/server/containers.go: when attach joins the running container, and when it copies the log.
use docker_in_kubernetes.Prelude.{
  ℕ, ◌≡◌, refl, sym, ◌⊎◌, inl, inr, Bool, true, false, not, ◌&&◌, Option, none, some, List, [], ◌∷◌,
  Text, ℤ, pos, arith, Option-cases, Bool-cases, if◌then◌else◌,
}
use mathlib.Core.Path.{subst}
use docker_in_kubernetes.K8s.{
  error_text, Outcome, done, Outcome-cases, PodError-cases, fatal_container_waiting_state,
}
use docker_in_kubernetes.K8s.Remote.{LogOptions}
use docker_in_kubernetes.Pod.{Pod, ContainerState}
use docker_in_kubernetes.Podspec.Ports.{Result, ok, err}
use docker_in_kubernetes.Server.Pending.{PendingContainer, get_by_ref}
use docker_in_kubernetes.Server.Reply.{Reply, write_error}
use docker_in_kubernetes.Server.Containers.{exit_code_from_pod, terminated_code}
use docker_in_kubernetes.Server.Containers.Handlers.{Daemon, Context, no_such_container}
use docker_in_kubernetes.Server.Containers.Waiting.{
  started_state, started_turn, wait_for_container_started, resolve_pod,
}
use docker_in_kubernetes.Server.Containers.Waiting.Polls.{poll_loop-ok}
use docker_in_kubernetes.Server.Containers.Attaching.{
  Attached, has_tty, refused, dropped, interactive, logged, attach, copy_log, copy_pieces,
  attach_logs, attach_started, attach_hijacked,
}
use docker_in_kubernetes.Server.Streams.{conn, session_options, write_raw_stream_response}

-- A container that is seen to have ended has an exit code.
started_state-exit :
    (states : List ContainerState)
    → started_state states ≡ some true
    → (c : ℤ) × (terminated_code states ≡ some c)
unfolding started_state terminated_code
started_state-exit [] h = ground arith
started_state-exit (cs ∷ states) h = elim (Option-cases cs.terminated) [
  | inr (t, e) ↦ (t.0, ground (arith, e))
  | inl e ↦ elim (Bool-cases cs.running) [
    | inl r ↦ ground (arith, e, r)
    | inr r ↦
        let (c, x) = started_state-exit states (ground (arith, e, r)) in (c, ground (arith, e, x))
  ]
]

module _ {ℓ} {S : Type ℓ} (context : Context S) where
  started_turn_sound :
      (name : Text) (s : S) (ended : Bool)
      → started_turn context name s ≡ some (ok ended)
      → (pod : Pod) × (context.pods.get s name ≡ done pod)
        × (started_state pod.status.container_statuses ≡ some ended)
  unfolding started_turn
  started_turn_sound name s ended h = elim (Outcome-cases (context.pods.get s name)) [
    | inr (e, g) ↦ ground (arith, g)
    | inl (pod, g) ↦ elim (Option-cases (started_state pod.status.container_statuses)) [
      | inr (t, e) ↦ (pod, g, ground (arith, g, e))
      | inl e ↦ elim (Option-cases (fatal_container_waiting_state pod)) [
        | inl f ↦ ground (arith, g, e, f)
        | inr (([], m), f) ↦ ground (arith, g, e, f)
        | inr ((c ∷ cs, m), f) ↦ ground (arith, g, e, f)
      ]
    ]
  ]

  module _ (logs_of : Text → LogOptions → Outcome (List ℕ)) (accepts : List ℕ → List ℕ → Bool)
      (cut : List ℕ → List (List ℕ)) (at : ℕ → S) (cancelled started : ℕ → Option Text)
      (fuel : ℕ) where
    -- A poll saw the container of this name: it ran (false), or had ended (true).
    abbrev pub Seen : Text → Bool → Type 0
    Seen name ended =
        (j : ℕ) × (pod : Pod) × (context.pods.get (at j) name ≡ done pod)
        × (started_state pod.status.container_statuses ≡ some ended)

    -- A poll read a pod that has an exit code.
    abbrev pub Exited : Text → Type 0
    Exited name =
        (j : ℕ) × (pod : Pod) × (context.pods.get (at j) name ≡ done pod)
        × (code : ℤ) × (exit_code_from_pod pod ≡ some code)

    Seen-Exited : (name : Text) → Seen name true → Exited name
    unfolding exit_code_from_pod
    Seen-Exited name (j, pod, got, state) =
        let (code, e) = started_state-exit pod.status.container_statuses state in
        (j, pod, got, code, ground (arith, e))

    -- What is known of the container when attach joins it or copies its log.
    abbrev pub IsAttached : Text → Bool → Attached → Type 0
    IsAttached connection want_stdin (interactive sent name opts) =
        (sent ≡ write_raw_stream_response connection) × (want_stdin ≡ true) × Seen name false
    IsAttached connection want_stdin (logged sent name out) =
        (sent ≡ write_raw_stream_response connection)
        × (((want_stdin ≡ false) × (ended : Bool) × Seen name ended) ⊎ Exited name)
    IsAttached connection want_stdin other = Unit

    attach_logs-cases :
        (pod : Pod) (tty : Bool) (sent : List ℕ)
        → (attach_logs context logs_of accepts cut pod tty sent ≡ dropped sent)
          ⊎ ((out : List ℕ) × (attach_logs context logs_of accepts cut pod tty sent
                ≡ logged sent pod.name out))
    unfolding attach_logs
    attach_logs-cases pod tty sent =
        elim (Outcome-cases (logs_of pod.name (record { follow = true; tail_lines = pos 0 }))) [
          | inr (e, g) ↦ inl (rw (g, attach_logs) refl)
          | inl (log, g) ↦ inr (
            (if tty
                then copy_pieces context logs_of accepts sent (cut log)
                else copy_log context logs_of accepts sent log),
            rw (g, attach_logs) refl,
          )
        ]

    attach_logs-IsAttached :
        (connection : Text) (want_stdin tty : Bool) (pod : Pod)
        → ((want_stdin ≡ false) × (ended : Bool) × Seen pod.name ended) ⊎ Exited pod.name
        → IsAttached connection want_stdin
            (attach_logs context logs_of accepts cut pod tty (write_raw_stream_response connection))
    attach_logs-IsAttached connection want_stdin tty pod seen =
        elim (attach_logs-cases pod tty (write_raw_stream_response connection)) [
          | inl e ↦ subst (IsAttached connection want_stdin) (sym e) tt
          | inr (out, e) ↦ subst (IsAttached connection want_stdin) (sym e) (refl, seen)
        ]

    verdict-IsAttached :
        (connection : Text) (want_stdin ended : Bool) (pod : Pod)
        → Seen pod.name ended
        → IsAttached connection want_stdin (
            if want_stdin && not ended
            then interactive
                (write_raw_stream_response connection)
                pod.name
                (session_options (some conn) (has_tty pod))
            else attach_logs context logs_of accepts cut pod
                (has_tty pod)
                (write_raw_stream_response connection))
    verdict-IsAttached connection true false pod seen = (refl, refl, seen)
    verdict-IsAttached connection true true pod seen =
        attach_logs-IsAttached connection true (has_tty pod) pod (inr (Seen-Exited pod.name seen))
    verdict-IsAttached connection false ended pod seen =
        attach_logs-IsAttached connection false (has_tty pod) pod (inl (refl, ended, seen))

    attach_started-IsAttached :
        (connection : Text) (want_stdin : Bool) (pod : Pod) (r : Attached)
        → attach_started context logs_of accepts cut at cancelled started fuel want_stdin pod
            (write_raw_stream_response connection)
          ≡ some r
        → IsAttached connection want_stdin r
    unfolding attach_started wait_for_container_started
    attach_started-IsAttached connection want_stdin pod r h =
        let turn : ℕ → Option (Result Bool) = λ i. started_turn context pod.name (at i) in
        let sent : List ℕ = write_raw_stream_response connection in
        elim (Option-cases (wait_for_container_started context at cancelled fuel pod.name)) [
          | inl e ↦ ground (arith, e)
          | inr (err m, e) ↦
              let same : dropped sent ≡ r = ground (arith, e, h) in
              subst (IsAttached connection want_stdin) same tt
          | inr (ok ended, e) ↦
              let (j, polled) = poll_loop-ok turn cancelled ended fuel 0 e in
              let (found, got, state) = started_turn_sound pod.name (at j) ended polled in
              let same : (if want_stdin && not ended
                    then interactive sent pod.name (session_options (some conn) (has_tty pod))
                    else attach_logs context logs_of accepts cut pod (has_tty pod) sent)
                  ≡ r =
                ground (arith, e, h) in
              subst (IsAttached connection want_stdin) same
                (verdict-IsAttached connection want_stdin ended pod (j, found, got, state))
        ]

    attach_hijacked-IsAttached :
        (connection : Text) (want_stdin : Bool) (pending : Option PendingContainer) (pod : Pod)
        (r : Attached)
        → attach_hijacked context logs_of accepts cut at cancelled started fuel want_stdin
            connection pending pod
          ≡ some r
        → IsAttached connection want_stdin r
    unfolding attach_hijacked
    attach_hijacked-IsAttached connection want_stdin pending pod r h =
        let sent : List ℕ = write_raw_stream_response connection in
        let failure : Option Text = elim pending [ none ↦ none | some p ↦ started p.signal ] in
        let quiet = λ (bytes : List ℕ) (same : dropped bytes ≡ r).
          subst (IsAttached connection want_stdin) same tt in
        elim (Bool-cases (accepts [] sent)) [
          | inr lost ↦ quiet [] (ground (arith, lost, h))
          | inl kept ↦ elim (Option-cases failure) [
            | inr (e, f) ↦ quiet sent (ground (arith, kept, f, h))
            | inl f ↦
                attach_started-IsAttached connection want_stdin pod r (ground (arith, kept, f, h))
          ]
        ]

    -- attach joins a container only if the client sends input and a poll saw the container run; it copies
    -- the log only if the client sends none or a poll read an exit code of the container. Either way the headers
    -- went first.
    pub attach-IsAttached :
        (now : ℕ) (id : Text) (want_stdin : Bool) (connection : Text) (hijack : Option Text)
        (d : Daemon S) (r : Attached)
        → (attach context logs_of accepts cut at cancelled started fuel now id want_stdin connection
            hijack d).1
          ≡ some r
        → IsAttached connection want_stdin r
    unfolding attach resolve_pod
    attach-IsAttached now id want_stdin connection hijack d r h =
        let quiet = λ (reply : Reply Text) (same : refused reply ≡ r).
          subst (IsAttached connection want_stdin) same tt in
        let hijacked =
          λ (pending : Option PendingContainer) (pod : Pod)
              (lives : hijack ≡ none
                → attach_hijacked context logs_of accepts cut at cancelled started fuel want_stdin
                    connection pending pod
                  ≡ some r)
              (dies : (m : Text) → hijack ≡ some m → refused (write_error 500 m) ≡ r).
            elim (Option-cases hijack) as (λ _. IsAttached connection want_stdin r) [
              | inl e ↦ attach_hijacked-IsAttached connection want_stdin pending pod r (lives e)
              | inr (m, e) ↦ quiet (write_error 500 m) (dies m e)
            ] in
        elim (Option-cases (get_by_ref now id d.pending).1) [
          | inr (p, found) ↦
              hijacked (some p) p.spec (λ e. ground (arith, found, e, h))
                (λ m e. ground (arith, found, e, h))
          | inl missing ↦ elim (Outcome-cases (context.pods.find_by_id d.cluster id)) [
            | inl (pod, f) ↦
                hijacked none pod (λ e. ground (arith, missing, f, e, h))
                  (λ m e. ground (arith, missing, f, e, h))
            | inr (e, f) ↦ elim (PodError-cases e) [
              | inl n ↦
                  quiet (write_error 404 (no_such_container id)) (ground (arith, missing, f, n, h))
              | inr (inl (w, m, n)) ↦
                  quiet (write_error 500 (error_text e)) (ground (arith, missing, f, n, h))
              | inr (inr (m, n)) ↦
                  quiet (write_error 500 (error_text e)) (ground (arith, missing, f, n, h))
            ]
          ]
        ]
