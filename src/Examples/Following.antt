-- ===== src/Examples/Following.antt =====
-- The handlers that follow a container: wait, attach and logs (internal/server).
use docker_in_kubernetes.Prelude.{
  ℕ, zero, suc, ◌+◌, ◌==◌, ◌≤◌, ◌<◌, ◌≡◌, inl, inr, refl, none, some, Option, List, [], ◌∷◌, Text,
  text, Bool, true, false, arith, ℤ, pos, if◌then◌else◌,
}
use docker_in_kubernetes.K8s.{Outcome, done, fails, not_found}
use docker_in_kubernetes.K8s.Remote.{LogOptions}
use docker_in_kubernetes.Pod.{Pod, Phase, Status}
use docker_in_kubernetes.Podspec.Ports.{ok}
use docker_in_kubernetes.Server.Frames.Demux.{demux, write_rounds}
use docker_in_kubernetes.Server.Streams.{
  write_raw_stream_response, conn, session_options, deliver, copy_lines,
}
use docker_in_kubernetes.Server.Streams.Sessions.{output, tagged, deliver_lem}
use docker_in_kubernetes.Server.Streams.Lines.{demux-copy_lines}
use docker_in_kubernetes.Server.Pending.{Signal, new_signal, get_by_ref, err_pending_removed}
use docker_in_kubernetes.Server.Containers.Handlers.{start, start_pending}
use docker_in_kubernetes.Server.Containers.Stopping.Race.{start_race}
use docker_in_kubernetes.Server.Containers.Stopping.{terminate, exit_turn, wait_end}
use docker_in_kubernetes.Server.Containers.Stopping as Stopping
use docker_in_kubernetes.Server.Containers.Waiting.{wait, wait_response, answered}
use docker_in_kubernetes.Server.Containers.Waiting.Polls.{Undecided}
use docker_in_kubernetes.Server.Containers.Waiting.Answers.{
  Polled, IsAnswered, wait_first, wait-answered,
}
use docker_in_kubernetes.Server.Containers.Attaching.{Attached, interactive, attach}
use docker_in_kubernetes.Server.Containers.Attaching.Modes.{IsAttached, attach-IsAttached}
use docker_in_kubernetes.Examples.Cluster.{web, web_pod, ready_status}
use docker_in_kubernetes.Examples.Daemons.{context, waiting, entry, entry_got}

abbrev exited_pod : Pod
exited_pod = record web_pod {
  status = record ready_status {
    container_statuses =
        record { waiting = none; running = false; terminated = some (pos 3, 8) } ∷ [];
  };
}

-- The container runs at the first poll and has ended at the second.
abbrev polls : ℕ → List Pod
polls zero = web_pod ∷ []
polls (suc i) = exited_pod ∷ []

abbrev patient : ℕ → Option Text
patient i = none

running_first : exit_turn context web (polls 0) ≡ none
unfolding exit_turn docker_in_kubernetes.K8s.get docker_in_kubernetes.Examples.Cluster.get_pod
    docker_in_kubernetes.Prelude.text_eq docker_in_kubernetes.Pod.value_of
    docker_in_kubernetes.Prelude.lookup text
    docker_in_kubernetes.Server.Containers.exit_code_from_pod
running_first = refl

exited_second : exit_turn context web (polls 1) ≡ some (ok (pos 3, false))
unfolding exit_turn docker_in_kubernetes.K8s.get docker_in_kubernetes.Examples.Cluster.get_pod
    docker_in_kubernetes.Prelude.text_eq docker_in_kubernetes.Pod.value_of
    docker_in_kubernetes.Prelude.lookup text
    docker_in_kubernetes.Server.Containers.exit_code_from_pod
exited_second = refl

patient-Undecided : Undecided (λ k. exit_turn context web (polls k)) patient 0 1
patient-Undecided zero lo hi = (running_first, refl)
patient-Undecided (suc k) lo hi = absurd (omega arith)

web-Polled : Polled context 9 web patient waiting web
web-Polled = inl (entry, entry_got, refl, refl)

web_waited :
    wait context polls patient 2 9 web true patient waiting waiting
    ≡ some (
      (wait_end context web (pos 3, false) true waiting).0,
      answered (wait_response (pos 3, false)),
    )
web_waited =
    wait_first context polls patient 1 2 9 web true patient waiting waiting web (pos 3, false)
      web-Polled (omega arith) patient-Undecided exited_second

wait-answered_example :
    IsAnswered context polls patient 9 web patient waiting true waiting
      (wait_end context web (pos 3, false) true waiting).0
      (wait_response (pos 3, false))
wait-answered_example =
    wait-answered context polls patient 2 9 web true patient waiting waiting
      (wait_end context web (pos 3, false) true waiting).0 (wait_response (pos 3, false)) web_waited

abbrev writes : List (Bool × List ℕ)
writes = (false, b'h' ∷ []) ∷ (true, b'e' ∷ []) ∷ (false, b'i' ∷ []) ∷ []

deliver_lem_example :
    (deliver (λ _ _. true) (session_options (some conn) true) [] writes
      ≡ some (output false writes))
    × (bytes : List ℕ) × (deliver (λ _ _. true) (session_options (some conn) false) [] writes
        ≡ some bytes)
    × (demux (write_rounds (tagged writes)) 1 bytes ≡ some (output false writes))
    × (demux (write_rounds (tagged writes)) 2 bytes ≡ some (output true writes))
deliver_lem_example = deliver_lem (some conn) writes

abbrev two_lines : List ℕ
two_lines = b'a' ∷ b'\n' ∷ b'b' ∷ []

demux-copy_lines_example :
    (bytes : List ℕ) × (rounds : ℕ) × (copy_lines (λ _ _. true) 4 [] two_lines ≡ some bytes)
    × (demux rounds 1 bytes ≡ some two_lines)
demux-copy_lines_example = demux-copy_lines 1 two_lines

abbrev logs_of : Text → LogOptions → Outcome (List ℕ)
logs_of name opts = done two_lines

abbrev accepts : List ℕ → List ℕ → Bool
accepts sent bytes = true

-- Each read takes all that is there.
abbrev whole : List ℕ → List (List ℕ)
whole log = log ∷ []

abbrev joined : Attached
joined = interactive (write_raw_stream_response []) web (session_options (some conn) false)

attached :
    (attach context logs_of accepts whole polls patient patient 1 9 web true [] none waiting).1
    ≡ some joined
unfolding attach docker_in_kubernetes.Server.Pending.get_by_ref docker_in_kubernetes.Prelude.lookup
    docker_in_kubernetes.Prelude.text_eq docker_in_kubernetes.Podspec.Identity.short_id
    docker_in_kubernetes.K8s.get docker_in_kubernetes.Examples.Cluster.get_pod
    docker_in_kubernetes.Pod.value_of text
attached = refl

attach-IsAttached_example :
    IsAttached context logs_of accepts whole polls patient patient 1 [] true joined
attach-IsAttached_example =
    attach-IsAttached context logs_of accepts whole polls patient patient 1 9 web true [] none
      waiting joined attached

entry_fresh : (get_by_ref 9 web waiting.pending).0.signals entry.signal ≡ new_signal
unfolding get_by_ref
entry_fresh = refl

entry_taken : (context.pods.create waiting.cluster entry.spec).1 ≡ done web_pod
unfolding docker_in_kubernetes.K8s.create docker_in_kubernetes.Examples.Cluster.create_pod
entry_taken = refl

abbrev entry_signal : Signal
entry_signal = (start context 9 web waiting).0.pending.signals entry.signal

start_race_example :
    (Stopping.delete context 9 web waiting ≡ terminate context 9 (pos 0) web waiting)
    × ((terminate context 9 (pos 0) web waiting).1.status ≡ 204)
    × ((start_pending context entry (terminate context 9 (pos 0) web waiting).0).0.cluster
        ≡ (context.pods.create waiting.cluster entry.spec).0)
    × (((start_pending context entry (terminate context 9 (pos 0) web waiting).0).0.pending.signals
          entry.signal).failure
        ≡ some err_pending_removed)
    × (((start_pending context entry (terminate context 9 (pos 0) web waiting).0).0.pending.signals
          entry.signal).started
        ≡ false)
start_race_example =
    start_race context 9 (pos 0) web waiting entry web_pod entry_got entry_fresh entry_taken
