-- ===== src/Examples/Cluster.antt =====
-- A cluster as the list of its pods, with the API server's promises, and the pods that the examples use.
use mathlib.Core.Path.{subst}
use docker_in_kubernetes.Prelude.{
  ℕ, ◌≡◌, inl, inr, none, some, Option, List, [], ◌∷◌, Text, text, text_eq, text_eq_iff, true, not,
  Bool-cases, All, arith, filter, if◌then◌else◌,
}
use docker_in_kubernetes.K8s.{Api, Outcome, done, fails, not_found, is_managed}
use docker_in_kubernetes.K8s.Finding.{IsApi}
use docker_in_kubernetes.Pod.{Pod, Phase, Status}
use docker_in_kubernetes.Podspec.Identity.{label_managed, annotation_docker_name}
use docker_in_kubernetes.Server.Containers.Views.Listed.{filter-All}

unfoldable pub get_pod : List Pod → Text → Outcome Pod
get_pod [] name = fails not_found
get_pod (p ∷ pods) name =
    let rest = get_pod pods name in if text_eq p.name name then done p else rest

unfoldable pub list_pods : List Pod → Outcome (List Pod)
list_pods pods = done (filter is_managed pods)

unfoldable pub create_pod : List Pod → Pod → List Pod × Outcome Pod
create_pod pods p = (p ∷ pods, done p)

unfoldable pub delete_pod : List Pod → Text → Option ℕ → List Pod × Outcome {0} Unit
delete_pod pods name grace = (filter (λ p. not (text_eq p.name name)) pods, done tt)

abbrev pub api : Api (List Pod)
api = record { get = get_pod; list_managed = list_pods; create = create_pod; delete = delete_pod }

get_pod-name :
    (pods : List Pod) (name : Text) (p : Pod) → get_pod pods name ≡ done p → p.name ≡ name
unfolding get_pod
get_pod-name [] name p h = ground arith
get_pod-name (q ∷ pods) name p h = elim (Bool-cases (text_eq q.name name)) [
  | inl e ↦ ground (arith, e, (text_eq_iff q.name name).0 e)
  | inr e ↦ get_pod-name pods name p (ground (arith, e))
]

list_pods-managed :
    (s pods : List Pod) → list_pods s ≡ done pods → All (λ p. is_managed p ≡ true) pods
unfolding list_pods
list_pods-managed s pods h =
    let e : filter is_managed s ≡ pods = ground (arith, h) in
    subst (λ l. All (λ p. is_managed p ≡ true) l) e (filter-All is_managed s)

pub api-IsApi : IsApi api
api-IsApi = record { get_name = get_pod-name; listed = list_pods-managed }

abbrev pub ready_status : Status
ready_status = record {
  phase = Phase.running;
  start_time = some 5;
  container_statuses = record { waiting = none; running = true; terminated = none } ∷ [];
  conditions = (text "Ready", text "True") ∷ [];
  reason = [];
  pod_ip = [];
}

abbrev pub web : Text
web = b'w' ∷ b'e' ∷ b'b' ∷ []

abbrev pub web_pod : Pod
web_pod = record {
  name = web;
  namespace = web;
  labels = (label_managed, text "true") ∷ [];
  annotations = (annotation_docker_name, web) ∷ [];
  creation_timestamp = 7;
  hostname = [];
  containers = [];
  status = ready_status;
}
