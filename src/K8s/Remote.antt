-- ===== src/K8s/Remote.antt =====
-- internal/k8s/pods.go: the pods' logs, attach and exec, and the settings of Pods. The API server's log
-- call and the SPDY executor (k8s.io/client-go) are parameters. A stream that is nil is `none`; the
-- queue of terminal sizes, which the program never sets, is left out.
use docker_in_kubernetes.Prelude.{
  ℕ, Bool, true, false, Option, none, some, List, [], ◌∷◌, ◌++◌, Text, text, ℤ, pos, negsuc, ltb,
  if◌then◌else◌,
}
use docker_in_kubernetes.Pod.{Pod}
use docker_in_kubernetes.Podspec.Ports.{Result, ok, err}
use docker_in_kubernetes.K8s.{Outcome, done, fails, wrap}

-- Pods; C is the type of clientsets and R that of REST configurations. Durations are in nanoseconds.
pub record Pods (C R : Type 0) : Type 0 where
  pub cs : C
  pub rest : Option R
  pub namespace : Text
  pub poll_interval : ℤ
  pub ready_timeout : ℤ

abbrev pub default_poll_interval : ℤ
default_poll_interval = pos 500000000

abbrev pub default_ready_timeout : ℤ
default_ready_timeout = pos 30000000000

module _ {C R : Type 0} where
  unfoldable pub new_pods : C → Text → Pods C R
  new_pods cs namespace = record {
    cs = cs;
    rest = none;
    namespace = namespace;
    poll_interval = default_poll_interval;
    ready_timeout = default_ready_timeout;
  }

  unfoldable pub with_rest : Option R → Pods C R → Pods C R
  with_rest cfg p = record p { rest = cfg }

  unfoldable pub set_poll_interval : ℤ → Pods C R → Pods C R
  set_poll_interval d p = record p { poll_interval = d }

  unfoldable pub set_ready_timeout : ℤ → Pods C R → Pods C R
  set_ready_timeout d p = record p { ready_timeout = d }

-- LogOptions; at most 0 lines asks for no limit.
pub record LogOptions : Type 0 where
  pub follow : Bool
  pub tail_lines : ℤ

-- What is asked of the API server.
pub record PodLogOptions : Type 0 where
  pub follow : Bool
  pub tail_lines : Option ℤ

unfoldable pub pod_log_options : LogOptions → PodLogOptions
pod_log_options opts = record {
  follow = opts.follow;
  tail_lines = elim opts.tail_lines [
    | pos n ↦ if ltb 0 n then some (pos n) else none
    | negsuc n ↦ none
  ];
}

-- StreamLogs. The stream is the bytes that it yields until it ends.
unfoldable pub stream_logs :
    (Text → PodLogOptions → Outcome (List ℕ)) → Text → LogOptions → Outcome (List ℕ)
unfolding pod_log_options wrap
stream_logs get_logs name opts = elim (get_logs name (pod_log_options opts)) [
  | done bytes ↦ done bytes
  | fails e ↦ fails (wrap (text "stream logs " ++ name ++ text ": ") e)
]

-- StreamOptions, over the readers I and the writers O.
pub record StreamOptions (I O : Type 0) : Type 0 where
  pub stdin : Option I
  pub stdout : Option O
  pub stderr : Option O
  pub tty : Bool

-- How a run ended: well, with the exit code of a command, or with another error.
pub data ExecResult : Type 0 where
  success : ExecResult
  code_exit : ℤ → ExecResult
  other_error : Text → ExecResult

-- The request to a subresource of a pod: PodAttachOptions, or PodExecOptions with its command.
pub record StreamRequest : Type 0 where
  pub subresource : Text
  pub namespace : Text
  pub pod_name : Text
  pub command : List Text
  pub stdin : Bool
  pub stdout : Bool
  pub stderr : Bool
  pub tty : Bool

abbrev pub is_set {ℓ} : {A : Type ℓ} → Option A → Bool
is_set none = false
is_set (some a) = true

module _ {C R E I O : Type 0} (new_executor : R → StreamRequest → Result E)
    (stream : E → StreamOptions I O → ExecResult) where
  unfoldable pub run_spdy : Pods C R → StreamRequest → StreamOptions I O → ExecResult
  run_spdy p request opts = elim p.rest [
    | none ↦ other_error (text "pods: rest.Config not set; call WithREST")
    | some cfg ↦ elim (new_executor cfg request) [
      | err e ↦ other_error (text "spdy executor: " ++ e)
      | ok executor ↦ stream executor opts
    ]
  ]

  abbrev pub stream_request : Pods C R → Text → Text → List Text → StreamOptions I O → StreamRequest
  stream_request p subresource pod_name command opts = record {
    subresource = subresource;
    namespace = p.namespace;
    pod_name = pod_name;
    command = command;
    stdin = is_set opts.stdin;
    stdout = is_set opts.stdout;
    stderr = is_set opts.stderr;
    tty = opts.tty;
  }

  unfoldable pub attach : Pods C R → Text → StreamOptions I O → ExecResult
  unfolding run_spdy
  attach p pod_name opts = run_spdy p (stream_request p (text "attach") pod_name [] opts) opts

  unfoldable pub exec : Pods C R → Text → List Text → StreamOptions I O → ExecResult
  unfolding run_spdy
  exec p pod_name cmd opts = run_spdy p (stream_request p (text "exec") pod_name cmd opts) opts

-- PodIP. `get` reads a pod of a namespace.
unfoldable pub pod_ip : (Text → Text → Outcome Pod) → Text → Text → Text → Outcome Text
unfolding wrap
pod_ip get own_namespace namespace name =
    let ns : Text = elim namespace [ [] ↦ own_namespace | c ∷ cs ↦ c ∷ cs ] in
    elim (get ns name) [
      | done pod ↦ done pod.status.pod_ip
      | fails e ↦ fails (wrap (text "get pod for ip: ") e)
    ]
