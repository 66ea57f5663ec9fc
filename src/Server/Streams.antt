-- ===== src/Server/Streams.antt =====
-- internal/server/containers.go: what attach, logs and exec share: the headers of a hijacked connection,
-- the two writers on it, and the copy of a log line by line. Bytes are numbers.
pub mod Sessions
pub mod Lines
use docker_in_kubernetes.Prelude.{
  ℕ, zero, suc, Bool, true, false, not, ◌||◌, Option, none, some, List, [], ◌∷◌, ◌++◌, map, Text,
  text, length, has_prefix, ◌==◌, if◌then◌else◌,
}
use docker_in_kubernetes.K8s.Remote.{StreamOptions}
use docker_in_kubernetes.Podspec.Name.{to_lower}
use docker_in_kubernetes.Server.Frames.{write_chunks, framed_write}

abbrev pub api_version : Text
api_version = text "1.43"

-- strings.Contains.
unfoldable pub contains_text : Text → Text → Bool
contains_text [] sub = has_prefix [] sub
contains_text (c ∷ s) sub = let rest = contains_text s sub in has_prefix (c ∷ s) sub || rest

abbrev pub wants_upgrade : Text → Bool
wants_upgrade connection = contains_text (map to_lower connection) (text "upgrade")

-- writeRawStreamResponse, by the header Connection of the request: what it sends.
unfoldable pub write_raw_stream_response : Text → Text
unfolding contains_text
write_raw_stream_response connection =
    let status : Text =
      if wants_upgrade connection
      then text "HTTP/1.1 101 UPGRADED\r\n"
      else text "HTTP/1.1 200 OK\r\n" in
    let upgrade : Text =
      if wants_upgrade connection then text "Connection: Upgrade\r\nUpgrade: tcp\r\n" else [] in
    status
    ++ text "Content-Type: application/vnd.docker.raw-stream\r\n"
    ++ text "Api-Version: "
    ++ api_version
    ++ text "\r\n"
    ++ text "Server: docker-in-kubernetes\r\n"
    ++ upgrade
    ++ text "\r\n"

-- The writers on a connection: the connection itself, or a framedWriter of a stream.
pub data Sink : Type 0 where
  raw : Sink
  framed : ℕ → Sink

-- The readers of the client's input: the connection, or the buffered reader on it.
pub data Source : Type 0 where
  conn buffered : Source

unfoldable pub multiplexed_stdout_stderr : Bool → Sink × Sink
multiplexed_stdout_stderr tty = if tty then (raw, raw) else (framed 1, framed 2)

-- The options that attachInteractive and execStart hand to the pods.
unfoldable pub session_options : Option Source → Bool → StreamOptions Source Sink
unfolding multiplexed_stdout_stderr
session_options stdin tty =
    let (stdout, stderr) = multiplexed_stdout_stderr tty in
    record {
      stdin = stdin;
      stdout = some stdout;
      stderr = (if not tty then some stderr else none);
      tty = tty;
    }

-- ReadBytes('\n'): the line with its end, what follows it, and whether there was an end.
unfoldable pub read_bytes : List ℕ → List ℕ × List ℕ × Bool
read_bytes [] = ([], [], false)
read_bytes (c ∷ s) =
    let (line, rest, found) = read_bytes s in
    if c == b'\n' then (c ∷ [], s, true) else (c ∷ line, rest, found)

module _ (accepts : List ℕ → List ℕ → Bool) where
  -- A Write to a writer: what was sent then, and whether it succeeded.
  unfoldable pub write_sink : List ℕ → Sink → List ℕ → Option (List ℕ × Bool)
  write_sink sent raw p = some (if accepts sent p then (sent ++ p, true) else (sent, false))
  write_sink sent (framed stream) p = elim (framed_write accepts sent stream p) [
    | none ↦ none
    | some (sent', none) ↦ some (sent', false)
    | some (sent', some n) ↦ some (sent', true)
  ]

  -- client-go's copying of a session's streams, a driver for the writers above: what the remote end writes
  -- to stdout (false) or to stderr (true), in the order of the connection's
  -- mutex, until a Write fails. Output for a stream that was not asked for is not sent.
  unfoldable pub deliver :
      StreamOptions Source Sink → List ℕ → List (Bool × List ℕ) → Option (List ℕ)
  unfolding write_sink
  deliver opts sent [] = some sent
  deliver opts sent ((is_stderr, p) ∷ ws) =
      let out : Option Sink = if is_stderr then opts.stderr else opts.stdout in
      elim out [
        | none ↦ deliver opts sent ws
        | some sink ↦ elim (write_sink sent sink p) [
          | none ↦ none
          | some (sent', false) ↦ some sent'
          | some (sent', true) ↦ deliver opts sent' ws
        ]
      ]

  -- The loop of attachLogs and logs over the bytes of a log, on fuel: what was sent.
  unfoldable pub copy_lines : ℕ → List ℕ → List ℕ → Option (List ℕ)
  unfolding read_bytes
  copy_lines zero sent log = none
  copy_lines (suc fuel) sent log =
      let (line, rest, found) = read_bytes log in
      elim line [
        | [] ↦ some sent
        | c ∷ cs ↦ elim (write_chunks accepts (suc (length (c ∷ cs))) sent 1 (c ∷ cs)) [
          | none ↦ none
          | some (sent', good) ↦
              let later = copy_lines fuel sent' rest in
              if not good then some sent' else if found then later else some sent'
        ]
      ]
