-- ===== src/Server/Containers/Attaching.antt =====
-- internal/server/containers.go: handlers attach, logs and resize. The connection that is hijacked, what
-- waitForStart returns, the log and the streams of the pod are parameters; the errors that only the
-- daemon's own log shows are left out.
pub mod Modes
use docker_in_kubernetes.Prelude.{
  ℕ, zero, suc, ◌+◌, Bool, true, false, not, ◌&&◌, ◌||◌, ◌⊎◌, inl, inr, Option, none, some, List,
  [], ◌∷◌, ◌++◌, Text, text, ℤ, pos, neg, int64_max, digits_from, parse_int, ltb, leb, ◌==◌, length,
  if◌then◌else◌,
}
use docker_in_kubernetes.K8s.{PodStore, Outcome, done, fails, error_text}
use docker_in_kubernetes.K8s.Remote.{LogOptions, StreamOptions}
use docker_in_kubernetes.Pod.{Pod, Container}
use docker_in_kubernetes.Podspec.Ports.{Result, ok, err}
use docker_in_kubernetes.Server.Pending.{PendingContainer, get_by_ref}
use docker_in_kubernetes.Server.Reply.{Reply, write_header, write_error}
use docker_in_kubernetes.Server.Streams.{
  Source, conn, Sink, write_raw_stream_response, session_options, copy_lines,
}
use docker_in_kubernetes.Server.Containers.{bool_query}
use docker_in_kubernetes.Server.Containers.Handlers.{Daemon, Context}
use docker_in_kubernetes.Server.Containers.Waiting.{resolve_pod, wait_for_container_started}

-- The int64 that ParseInt returns, its error ignored: 0 for what is no number, and the nearest int64
-- for a number out of range.
unfoldable pub tail_lines : Text → ℤ
tail_lines [] = pos 0
tail_lines (c ∷ s) =
    let magnitude : Text = if (c == b'-') || (c == b'+') then s else c ∷ s in
    let digits : Option ℕ = elim magnitude [ [] ↦ none | d ∷ ds ↦ digits_from 0 (d ∷ ds) ] in
    elim digits [
      | none ↦ pos 0
      | some n ↦
          if c == b'-'
          then (if leb n (int64_max + 1) then neg n else neg (int64_max + 1))
          else if leb n int64_max
          then pos n
          else pos int64_max
    ]

-- How attach ends: with a reply, or with the connection hijacked and `sent` on it before it is closed
-- (`dropped`), while it is attached to the pod, or with the log copied to it.
pub data Attached : Type 0 where
  refused : Reply Text → Attached
  dropped : List ℕ → Attached
  interactive : List ℕ → Text → StreamOptions Source Sink → Attached
  logged : List ℕ → Text → List ℕ → Attached

-- resize answers 200 and looks nothing up.
abbrev pub resize : Reply Text
resize = write_header 200

abbrev pub has_tty : Pod → Bool
has_tty pod = elim pod.containers [ [] ↦ false | container ∷ rest ↦ container.tty ]

module _ {ℓ} {S : Type ℓ} (context : Context S) (logs_of : Text → LogOptions → Outcome (List ℕ))
    (accepts : List ℕ → List ℕ → Bool) where
  -- What attachLogs and logs send of a log.
  unfoldable pub copy_log : List ℕ → List ℕ → List ℕ
  unfolding copy_lines
  copy_log sent log = elim (copy_lines accepts (suc (length log)) sent log) [
    | none ↦ sent
    | some sent' ↦ sent'
  ]

  -- io.Copy of what the reads give, up to the first Write that fails.
  unfoldable pub copy_pieces : List ℕ → List (List ℕ) → List ℕ
  copy_pieces sent [] = sent
  copy_pieces sent (p ∷ pieces) =
      let rest = copy_pieces (sent ++ p) pieces in if accepts sent p then rest else sent

  -- `cut` is how the reads of io.Copy cut a log.
  module _ (cut : List ℕ → List (List ℕ)) where
    -- attachLogs: on a terminal the log is copied as it is, in the pieces that the reads cut it into.
    unfoldable pub attach_logs : Pod → Bool → List ℕ → Attached
    unfolding copy_log copy_pieces
    attach_logs pod tty sent =
        elim (logs_of pod.name (record { follow = true; tail_lines = pos 0 })) [
          | fails e ↦ dropped sent
          | done log ↦
              logged sent pod.name (if tty then copy_pieces sent (cut log) else copy_log sent log)
        ]

    -- attach from the headers on. `started` is what waitForStart returns for a pending container; the polls of
    -- waitForContainerStarted read the cluster `at i`, on fuel.
    module _ (at : ℕ → S) (cancelled : ℕ → Option Text) (started : ℕ → Option Text) (fuel : ℕ) where
      unfoldable pub attach_started : Bool → Pod → List ℕ → Option Attached
      unfolding attach_logs wait_for_container_started
      attach_started want_stdin pod sent =
          elim (wait_for_container_started context at cancelled fuel pod.name) [
            | none ↦ none
            | some (err e) ↦ some (dropped sent)
            | some (ok terminated) ↦ some (
                if want_stdin && not terminated
                then interactive sent pod.name (session_options (some conn) (has_tty pod))
                else attach_logs pod (has_tty pod) sent)
          ]

      unfoldable pub attach_hijacked : Bool → Text → Option PendingContainer → Pod → Option Attached
      unfolding attach_started
      attach_hijacked want_stdin connection pending pod =
          let sent : List ℕ = write_raw_stream_response connection in
          let failure : Option Text = elim pending [ none ↦ none | some p ↦ started p.signal ] in
          if not (accepts [] sent) then some (dropped []) else elim failure [
            | some e ↦ some (dropped sent)
            | none ↦ attach_started want_stdin pod sent
          ]

      -- Handler attach. `hijack` is the error of Hijack.
      unfoldable pub attach :
          ℕ → Text → Bool → Text → Option Text → Daemon S → Daemon S × Option Attached
      unfolding resolve_pod attach_hijacked
      attach now id want_stdin connection hijack d =
          let (pending, found) = get_by_ref now id d.pending in
          let d' = record d { pending = pending } in
          let target : Reply Text ⊎ Pod = elim found [
            | some p ↦ inr p.spec
            | none ↦ resolve_pod context id d.cluster
          ] in
          elim target [
            | inl reply ↦ (d', some (refused reply))
            | inr pod ↦ elim hijack [
              | some e ↦ (d', some (refused (write_error 500 e)))
              | none ↦ (d', attach_hijacked want_stdin connection found pod)
            ]
          ]

  -- Handler logs: the reply of a failure, or what is sent behind the status 200.
  unfoldable pub logs : Text → Text → Text → S → Reply Text ⊎ List ℕ
  unfolding resolve_pod tail_lines copy_log bool_query
  logs id follow tail s = elim (resolve_pod context id s) [
    | inl reply ↦ inl reply
    | inr pod ↦
        elim (logs_of pod.name
          (record { follow = bool_query follow; tail_lines = tail_lines tail })) [
            | fails e ↦ inl (write_error 500 (error_text e))
            | done log ↦ inr (copy_log [] log)
          ]
  ]
