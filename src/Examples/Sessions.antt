-- ===== src/Examples/Sessions.antt =====
-- Versioned paths and exec instances (internal/server).
use docker_in_kubernetes.Prelude.{
  ℕ, Bool, true, false, Option, none, some, List, [], ◌∷◌, ◌++◌, ◌≡◌, ◌≢◌, refl, Text, text,
  text_eq, Dict, All, arith, ℤ, pos,
}
use docker_in_kubernetes.K8s.{PodStore, pod_store}
use docker_in_kubernetes.Pod.{Pod}
use docker_in_kubernetes.K8s.Remote.{code_exit}
use docker_in_kubernetes.Server.Router.Routes.{routes}
use docker_in_kubernetes.Server.Router.Paths.{Plain}
use docker_in_kubernetes.Server.Router.Dispatch.{Reaches, everything, serve-routes}
use docker_in_kubernetes.Server.Exec.{
  ExecCreateRequest, ExecInstance, ExecStarted, exec_start, exec_create, exec_end,
}
use docker_in_kubernetes.Examples.Cluster.{api, web, web_pod}
use docker_in_kubernetes.Examples.Pods.{digest}

abbrev one : Text
one = b'1' ∷ []

abbrev forty_three : Text
forty_three = b'4' ∷ b'3' ∷ []

abbrev ping : Text
ping = b'_' ∷ b'p' ∷ []

one-ne : one ≢ []
one-ne e = ground arith

forty_three-ne : forty_three ≢ []
forty_three-ne e = ground arith

abbrev pods : PodStore (List Pod)
pods = pod_store api digest

abbrev list_files : ExecCreateRequest
list_files = record { cmd = (b'l' ∷ b's' ∷ []) ∷ []; tty = false; attach_stdin = false }

abbrev session : Text
session = b'e' ∷ []

abbrev takes_headers : Text → Bool
takes_headers headers = true

abbrev made : Dict ExecInstance
made = (exec_create pods (web_pod ∷ []) session web list_files []).0

abbrev begun : Dict ExecInstance × ExecStarted
begun = exec_start session [] none takes_headers made

abbrev ended : Dict ExecInstance
ended = exec_end session (code_exit (pos 2)) begun.0

-- A container's name, and the rest of an image's.
abbrev db : Text
db = b'd' ∷ b'b' ∷ []

db-Plain : Plain (db ∷ one ∷ [])
unfolding docker_in_kubernetes.Server.Router.Paths.is_plain text_eq text
    docker_in_kubernetes.Prelude.contains
db-Plain = (refl, (refl, tt))

db-ne : text_eq (text "json") db ≡ false
unfolding text_eq text
db-ne = refl

serve-routes_example : All (Reaches one forty_three db (one ∷ [])) (routes everything)
serve-routes_example =
    serve-routes one forty_three b'd' (b'b' ∷ []) (one ∷ []) one-ne (refl, tt) forty_three-ne
      (refl, (refl, tt)) db-ne db-Plain
