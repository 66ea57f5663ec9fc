-- ===== src/Server/Streams/Sessions.antt =====
-- internal/server/containers.go and exec.go: what the client of an attach or an exec reads.
use docker_in_kubernetes.Prelude.{
  ℕ, suc, ◌≡◌, refl, ◌∙◌, ap, sym, Bool, true, false, Option, some, List, [], ◌∷◌, ◌++◌,
  append_assoc, append-nil, arith, length, if◌then◌else◌,
}
use docker_in_kubernetes.Server.Frames.{framed_write}
use docker_in_kubernetes.Server.Frames.Chunks.{frames, split, write_chunks-frames}
use docker_in_kubernetes.Server.Frames.Demux.{
  demux, demux-write_all, write_all, write_rounds, written,
}
use docker_in_kubernetes.Server.Streams.{
  Source, session_options, multiplexed_stdout_stderr, write_sink, deliver,
}

-- The bytes that the remote end wrote to stderr (true) or to stdout (false).
unfoldable pub output : Bool → List (Bool × List ℕ) → List ℕ
output wanted [] = []
output wanted ((is_stderr, p) ∷ ws) =
    let rest = output wanted ws in
    elim wanted [
      | true ↦ if is_stderr then p ++ rest else rest
      | false ↦ if is_stderr then rest else p ++ rest
    ]

-- The number of a stream in the frames.
abbrev pub stream_of : Bool → ℕ
stream_of false = 1
stream_of true = 2

unfoldable pub tagged : List (Bool × List ℕ) → List (ℕ × List ℕ)
tagged [] = []
tagged ((is_stderr, p) ∷ ws) = (stream_of is_stderr, p) ∷ tagged ws

pub framed_write_lem :
    (sent : List ℕ) (s : ℕ) (p : List ℕ)
    → framed_write (λ _ _. true) sent s p
      ≡ some (sent ++ frames s (split (suc (length p)) p), some (length p))
unfolding framed_write
framed_write_lem sent s p =
    rw (write_chunks-frames (suc (length p)) sent s p (omega arith), framed_write) refl

deliver-write_all :
    (stdin : Option Source) (sent : List ℕ) (ws : List (Bool × List ℕ))
    → deliver (λ _ _. true) (session_options stdin false) sent ws ≡ write_all sent (tagged ws)
unfolding deliver session_options multiplexed_stdout_stderr tagged write_all write_sink
deliver-write_all stdin sent [] = refl
deliver-write_all stdin sent ((false, p) ∷ ws) =
    rw (framed_write_lem sent 1 p, deliver, write_all, write_sink)
      (deliver-write_all stdin (sent ++ frames 1 (split (suc (length p)) p)) ws)
deliver-write_all stdin sent ((true, p) ∷ ws) =
    rw (framed_write_lem sent 2 p, deliver, write_all, write_sink)
      (deliver-write_all stdin (sent ++ frames 2 (split (suc (length p)) p)) ws)

written-tagged :
    (wanted : Bool) (ws : List (Bool × List ℕ))
    → written (stream_of wanted) (tagged ws) ≡ output wanted ws
unfolding tagged output
written-tagged wanted [] = refl
written-tagged true ((true, p) ∷ ws) = rw (written-tagged true ws) refl
written-tagged true ((false, p) ∷ ws) = written-tagged true ws
written-tagged false ((true, p) ∷ ws) = written-tagged false ws
written-tagged false ((false, p) ∷ ws) = rw (written-tagged false ws) refl

deliver-tty :
    (stdin : Option Source) (sent : List ℕ) (ws : List (Bool × List ℕ))
    → deliver (λ _ _. true) (session_options stdin true) sent ws ≡ some (sent ++ output false ws)
unfolding deliver session_options multiplexed_stdout_stderr write_sink output
deliver-tty stdin sent [] = rw append-nil
deliver-tty stdin sent ((false, p) ∷ ws) = deliver-tty stdin (sent ++ p) ws ∙ rw append_assoc
deliver-tty stdin sent ((true, p) ∷ ws) = deliver-tty stdin sent ws

-- On a connection that takes every Write, the client of a session reads what the remote end
-- wrote: on a terminal the bytes of stdout as they are; without one, from the frames, the bytes
-- of stdout and those of stderr, each in order, however the writes to the two are interleaved.
pub deliver_lem :
    (stdin : Option Source) (ws : List (Bool × List ℕ))
    → (deliver (λ _ _. true) (session_options stdin true) [] ws ≡ some (output false ws))
      × (bytes : List ℕ) × (deliver (λ _ _. true) (session_options stdin false) [] ws ≡ some bytes)
      × (demux (write_rounds (tagged ws)) 1 bytes ≡ some (output false ws))
      × (demux (write_rounds (tagged ws)) 2 bytes ≡ some (output true ws))
deliver_lem stdin ws =
    let (bytes, sent, out) = demux-write_all 1 (tagged ws) in
    let (bytes', sent', errs) = demux-write_all 2 (tagged ws) in
    let same : bytes' ≡ bytes = ground (arith, sent, sent') in
    (
      deliver-tty stdin [] ws,
      bytes,
      deliver-write_all stdin [] ws ∙ sent,
      out ∙ ap some (written-tagged false ws),
      ap (demux (write_rounds (tagged ws)) 2) (sym same) ∙ errs ∙ ap some (written-tagged true ws),
    )
