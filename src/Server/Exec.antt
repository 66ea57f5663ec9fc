-- ===== src/Server/Exec.antt =====
-- internal/server/exec.go: the exec instances and their states. The random ID is a parameter, and the
-- run of the command is two steps, its begin and its end. The drained body and the log are left out.
pub mod Lifecycle
use docker_in_kubernetes.Prelude.{
  ℕ, Bool, true, false, not, Option, none, some, List, [], ◌∷◌, ◌++◌, Text, text, Dict, lookup,
  insert, ℤ, pos, if◌then◌else◌,
}
use docker_in_kubernetes.K8s.Remote.{StreamOptions, ExecResult, success, code_exit, other_error}
use docker_in_kubernetes.K8s.{PodStore, done, fails, not_found, error_text}
use docker_in_kubernetes.Server.Containers.Handlers.{no_such_container}
use docker_in_kubernetes.Server.Reply.{Reply, write_json, write_error}
use docker_in_kubernetes.Server.Streams.{
  Source, buffered, Sink, write_raw_stream_response, session_options,
}

-- The fields of dockerapi.ExecCreateRequest that are read.
pub record ExecCreateRequest : Type 0 where
  pub cmd : List Text
  pub tty : Bool
  pub attach_stdin : Bool

pub record ExecInstance : Type 0 where
  pub id : Text
  pub container_id : Text
  pub pod_name : Text
  pub cmd : List Text
  pub tty : Bool
  pub attach_stdin : Bool
  pub running : Bool
  pub exit_code : ℤ

unfoldable pub exit_code_from_exec_err : ExecResult → ℤ
exit_code_from_exec_err success = pos 0
exit_code_from_exec_err (code_exit status) = status
exit_code_from_exec_err (other_error e) = pos 1

-- dockerapi.ExecInspect.
pub record ExecInspect : Type 0 where
  pub id : Text
  pub running : Bool
  pub exit_code : ℤ
  pub open_stdin : Bool
  pub open_stdout : Bool
  pub open_stderr : Bool
  pub container_id : Text
  pub tty : Bool
  pub entry_point : Text
  pub arguments : List Text

abbrev pub no_such_exec : Text → Text
no_such_exec id = text "no such exec: " ++ id

abbrev pub new_exec : Text → Text → Text → ExecCreateRequest → ExecInstance
new_exec id container pod_name req = record {
  id = id;
  container_id = container;
  pod_name = pod_name;
  cmd = req.cmd;
  tty = req.tty;
  attach_stdin = req.attach_stdin;
  running = false;
  exit_code = pos 0;
}

-- Handler execCreate, on a body that was decoded.
unfoldable pub exec_create {ℓ} :
    {S : Type ℓ}
    → PodStore S
    → S
    → Text
    → Text
    → ExecCreateRequest
    → Dict ExecInstance
    → Dict ExecInstance × Reply Text
exec_create pods s id container req execs = elim (pods.find_by_id s container) [
  | fails not_found ↦ (execs, write_error 404 (no_such_container container))
  | fails e ↦ (execs, write_error 500 (error_text e))
  | done pod ↦ elim req.cmd [
    | [] ↦ (execs, write_error 400 (text "Cmd is required"))
    | c ∷ args ↦ (insert id (new_exec id container pod.name req) execs, write_json 201 id)
  ]
]

-- The begin of execStart, once the connection was hijacked, and its end.
unfoldable pub exec_begin : Text → Dict ExecInstance → Dict ExecInstance
exec_begin id execs = elim (lookup id execs) [
  | none ↦ execs
  | some e ↦ insert id (record e { running = true }) execs
]

-- What execStart does before the run: it answers with a reply, or closes the hijacked connection, or
-- runs the command of the instance with the streams on the connection, on which `sent` stands.
pub data ExecStarted : Type 0 where
  refused : Reply Text → ExecStarted
  dropped : ExecStarted
  runs : List ℕ → Text → List Text → StreamOptions Source Sink → ExecStarted

-- The streams of an instance.
abbrev pub exec_options : ExecInstance → StreamOptions Source Sink
exec_options e = session_options (if e.attach_stdin then some buffered else none) e.tty

-- Handler execStart up to the run of the command. `hijack` is the error of Hijack, and `sends` says
-- whether the connection takes the headers.
unfoldable pub exec_start :
    Text → Text → Option Text → (Text → Bool) → Dict ExecInstance → Dict ExecInstance × ExecStarted
unfolding exec_begin
exec_start id connection hijack sends execs =
    let headers : Text = write_raw_stream_response connection in
    elim (lookup id execs) [
      | none ↦ (execs, refused (write_error 404 (no_such_exec id)))
      | some e ↦ elim hijack [
        | some m ↦ (execs, refused (write_error 500 m))
        | none ↦
            if sends headers
            then (exec_begin id execs, runs headers e.pod_name e.cmd (exec_options e))
            else (execs, dropped)
      ]
    ]

unfoldable pub exec_end : Text → ExecResult → Dict ExecInstance → Dict ExecInstance
unfolding exit_code_from_exec_err
exec_end id result execs = elim (lookup id execs) [
  | none ↦ execs
  | some e ↦
      insert id (record e { running = false; exit_code = exit_code_from_exec_err result }) execs
]

unfoldable pub inspect_instance : ExecInstance → ExecInspect
inspect_instance e =
    let entry_point : Text = elim e.cmd [ [] ↦ [] | c ∷ args ↦ c ] in
    let arguments : List Text = elim e.cmd [ [] ↦ [] | c ∷ args ↦ args ] in
    record {
      id = e.id;
      running = e.running;
      exit_code = e.exit_code;
      open_stdin = e.attach_stdin;
      open_stdout = true;
      open_stderr = not e.tty;
      container_id = e.container_id;
      tty = e.tty;
      entry_point = entry_point;
      arguments = arguments;
    }

-- Handler execInspect.
unfoldable pub exec_inspect : Text → Dict ExecInstance → Reply ExecInspect
unfolding inspect_instance
exec_inspect id execs = elim (lookup id execs) [
  | none ↦ write_error 404 (no_such_exec id)
  | some e ↦ write_json 200 (inspect_instance e)
]
