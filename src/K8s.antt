-- ===== src/K8s.antt =====
-- internal/k8s/pods.go: the daemon's access to the pods of one namespace.
pub mod Finding
pub mod Ready
pub mod Remote
pub mod Connect
use docker_in_kubernetes.Prelude.{
  ℕ, zero, suc, ◌+◌, ◌/◌, Bool, true, false, not, ◌&&◌, ◌||◌, Option, none, some, List, [], ◌∷◌,
  ◌++◌, Text, text, if◌then◌else◌, ltb, text_eq, ◌≡◌, refl, ◌⊎◌, inl, inr, ℤ, pos, negsuc,
}
use docker_in_kubernetes.Pod.{Phase, ContainerState, Pod, Status, value_of}
use docker_in_kubernetes.Podspec.Identity.{
  container_id, short_id, label_managed, annotation_docker_name,
}

-- What a call on the API server or on the pods fails with. `not_found` is ErrNotFound and the not-found
-- status of the API server; `failed` carries the text of any other error.
pub data PodError : Type 0 where
  not_found : PodError
  image_pull_failed : Text → Text → PodError
  failed : Text → PodError

-- Method Error of ImagePullFailedError, and the texts of the other errors.
unfoldable pub error_text : PodError → Text
error_text not_found = text "pod not found"
error_text (image_pull_failed reason []) = reason
error_text (image_pull_failed reason (c ∷ m)) = reason ++ text ": " ++ c ∷ m
error_text (failed m) = m

pub data Outcome {ℓ} (A : Type ℓ) : Type ℓ where
  done : A → Outcome A
  fails : PodError → Outcome A

pub Outcome-cases {ℓ} :
    {A : Type ℓ} (x : Outcome A) → ((a : A) × (x ≡ done a)) ⊎ ((e : PodError) × (x ≡ fails e))
Outcome-cases (done a) = inl (a, refl)
Outcome-cases (fails e) = inr (e, refl)

-- The calls on the API server (k8s.io/client-go, a library), on a state S of the cluster.
pub record Api {ℓ} (S : Type ℓ) : Type ℓ where
  pub get : S → Text → Outcome Pod
  pub list_managed : S → Outcome (List Pod)
  pub create : S → Pod → S × Outcome Pod
  pub delete : S → Text → Option ℕ → S × Outcome {0} Unit

-- What the handlers use of the pods (the interface PodStore of internal/server/server.go).
pub record PodStore {ℓ} (S : Type ℓ) : Type ℓ where
  pub get : S → Text → Outcome Pod
  pub list : S → Outcome (List Pod)
  pub find_by_id : S → Text → Outcome Pod
  pub create : S → Pod → S × Outcome Pod
  pub delete : S → Text → ℤ → S × Outcome {0} Unit

pub PodError-cases :
    (e : PodError)
    → (e ≡ not_found)
      ⊎ ((r : Text) × (m : Text) × (e ≡ image_pull_failed r m))
      ⊎ ((m : Text) × (e ≡ failed m))
PodError-cases not_found = inl refl
PodError-cases (image_pull_failed r m) = inr (inl (r, m, refl))
PodError-cases (failed m) = inr (inr (m, refl))

unfoldable pub is_phase : Phase → Phase → Bool
is_phase Phase.pending Phase.pending = true
is_phase Phase.running Phase.running = true
is_phase Phase.succeeded Phase.succeeded = true
is_phase Phase.failed Phase.failed = true
is_phase Phase.unknown Phase.unknown = true
is_phase p q = false

unfoldable pub is_managed : Pod → Bool
is_managed pod = text_eq (value_of label_managed pod.labels) (text "true")

unfoldable pub ready_condition : List (Text × Text) → Bool
ready_condition [] = false
ready_condition ((type, status) ∷ conds) =
    let rest = ready_condition conds in
    if text_eq type (text "Ready") then text_eq status (text "True") else rest

unfoldable pub is_ready : Pod → Bool
unfolding is_phase ready_condition
is_ready pod = is_phase pod.status.phase Phase.running && ready_condition pod.status.conditions

unfoldable pub is_fatal : Text → Bool
is_fatal reason =
    text_eq reason (text "ImagePullBackOff")
    || text_eq reason (text "ErrImagePull")
    || text_eq reason (text "CreateContainerError")
    || text_eq reason (text "InvalidImageName")
    || text_eq reason (text "RegistryUnavailable")

unfoldable pub fatal_state : List ContainerState → Option (Text × Text)
unfolding is_fatal
fatal_state [] = none
fatal_state (cs ∷ states) =
    let rest = fatal_state states in
    elim cs.waiting [ none ↦ rest | some w ↦ if is_fatal w.0 then some w else rest ]

unfoldable pub fatal_container_waiting_state : Pod → Option (Text × Text)
unfolding fatal_state
fatal_container_waiting_state pod = fatal_state pod.status.container_statuses

-- The error that a call is wrapped in, unless it is that nothing was found.
unfoldable pub wrap : Text → PodError → PodError
wrap what not_found = not_found
wrap what (image_pull_failed r m) = failed (what ++ error_text (image_pull_failed r m))
wrap what (failed m) = failed (what ++ m)

-- The seconds of a duration in nanoseconds; a negative duration asks for the pod's own period.
unfoldable pub grace_seconds : ℤ → Option ℕ
grace_seconds (pos n) = some (n / 1000000000)
grace_seconds (negsuc n) = none

-- The scan of FindByID over the pods listed.
unfoldable pub matches : (Text → Text) → Text → Pod → Bool
matches sha256_hex ref pod =
    let full_id : Text = container_id sha256_hex pod.namespace pod.name in
    text_eq (value_of annotation_docker_name pod.annotations) ref
    || text_eq full_id ref
    || text_eq (short_id full_id) ref

unfoldable pub scan : (Text → Text) → Text → List Pod → Outcome Pod
unfolding matches
scan sha256_hex ref [] = fails not_found
scan sha256_hex ref (pod ∷ pods) =
    let rest = scan sha256_hex ref pods in if matches sha256_hex ref pod then done pod else rest

module _ {ℓ} {S : Type ℓ} (api : Api S) where
  unfoldable pub create : S → Pod → S × Outcome Pod
  create s pod =
      let (s', out) = api.create s pod in
      elim out [
        | done created ↦ (s', done created)
        | fails e ↦
            (s', fails (failed (text "create pod " ++ pod.name ++ text ": " ++ error_text e)))
      ]

  unfoldable pub delete : S → Text → ℤ → S × Outcome {0} Unit
  unfolding grace_seconds wrap
  delete s name grace =
      let (s', out) = api.delete s name (grace_seconds grace) in
      elim out [
        | done u ↦ (s', done u)
        | fails e ↦ (s', fails (wrap (text "delete pod " ++ name ++ text ": ") e))
      ]

  unfoldable pub get : S → Text → Outcome Pod
  unfolding is_managed wrap
  get s name = elim (api.get s name) [
    | done pod ↦ if is_managed pod then done pod else fails not_found
    | fails e ↦ fails (wrap (text "get pod " ++ name ++ text ": ") e)
  ]

  unfoldable pub list : S → Outcome (List Pod)
  list s = elim (api.list_managed s) [
    | done pods ↦ done pods
    | fails e ↦ fails (failed (text "list pods: " ++ error_text e))
  ]

  unfoldable pub find_by_id : (Text → Text) → S → Text → Outcome Pod
  unfolding get list scan
  find_by_id sha256_hex s [] = fails not_found
  find_by_id sha256_hex s (c ∷ ref) = elim (get s (c ∷ ref)) [
    | done pod ↦ done pod
    | fails e ↦ elim (list s) [ fails e' ↦ fails e' | done pods ↦ scan sha256_hex (c ∷ ref) pods ]
  ]

  abbrev pub pod_store : (Text → Text) → PodStore S
  pod_store sha256_hex = record {
    get = get;
    list = list;
    find_by_id = find_by_id sha256_hex;
    create = create;
    delete = delete;
  }

  -- What WaitForReady does with a pod that it read: return, or poll again.
  unfoldable pub ready_verdict : Text → Pod → Option (Outcome {0} Unit)
  unfolding is_ready is_phase fatal_container_waiting_state
  ready_verdict name pod =
      if is_ready pod || is_phase pod.status.phase Phase.succeeded
      then some (done tt)
      else elim (fatal_container_waiting_state pod) [
        | some (reason, message) ↦ some (fails (image_pull_failed reason message))
        | none ↦
            if is_phase pod.status.phase Phase.failed
            then some (
                fails (
                  failed
                    (text "pod " ++ name ++ text " entered Failed phase: " ++ pod.status.reason)))
            else none
      ]

  -- The loop of WaitForReady from the poll i on, with fuel. At the poll i the cluster is `at i` and
  -- the clock stands at `now i`; `cancelled i` is the error of a context that ends in the pause after it.
  module _ (at : ℕ → S) (now : ℕ → ℕ) (cancelled : ℕ → Option Text) (timeout : Text) where
    unfoldable pub wait_loop : ℕ → ℕ → Text → ℕ → Option (Outcome {0} Unit)
    unfolding get ready_verdict
    wait_loop deadline zero name i = none
    wait_loop deadline (suc fuel) name i =
        let rest = wait_loop deadline fuel name (suc i) in
        elim (get (at i) name) [
          | fails e ↦ some (fails e)
          | done pod ↦ elim (ready_verdict name pod) [
            | some verdict ↦ some verdict
            | none ↦
                if ltb deadline (now i)
                then some (
                    fails (
                      failed (
                        text "timed out waiting for pod "
                        ++ name
                        ++ text " to be ready after "
                        ++ timeout)))
                else elim (cancelled i) [ some e ↦ some (fails (failed e)) | none ↦ rest ]
          ]
        ]
