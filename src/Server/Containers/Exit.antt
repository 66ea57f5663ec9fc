-- ===== src/Server/Containers/Exit.antt =====
-- internal/server/containers.go and summary.go: when a container has exited, and its exit code.
use docker_in_kubernetes.Prelude.{
  ℕ, true, false, none, some, List, [], ◌∷◌, ◌≡◌, refl, ap, inl, inr, Option-cases, arith, ℤ, pos,
}
use docker_in_kubernetes.K8s.{is_phase}
use docker_in_kubernetes.Pod.{Phase, Pod, ContainerState}
use docker_in_kubernetes.Podspec.Codec.{Codec}
use docker_in_kubernetes.Server.Containers.{
  exit_code_from_pod, terminated_code, pod_terminated, any_terminated,
}
use docker_in_kubernetes.Server.Summary.{
  termination_of, termination_in, exited, docker_state_from_phase,
}
use docker_in_kubernetes.Server.Summary.Inspect.{build_state}

any_terminated_lem :
    (states : List ContainerState)
    → any_terminated states ≡ elim (terminated_code states) [ none ↦ false | some c ↦ true ]
unfolding any_terminated terminated_code
any_terminated_lem [] = refl
any_terminated_lem (cs ∷ states) =
    ground (arith, any_terminated_lem states, Option-cases cs.terminated)

-- The loop of wait and the watcher that frees the ports agree on when a container has ended.
pub exit_code-pod_terminated :
    (pod : Pod)
    → pod_terminated pod ≡ elim (exit_code_from_pod pod) [ none ↦ false | some c ↦ true ]
unfolding pod_terminated exit_code_from_pod
exit_code-pod_terminated pod = ground (arith, any_terminated_lem pod.status.container_statuses)

terminated_code_lem :
    (states : List ContainerState) (code : ℤ) (t : ℕ)
    → termination_in states ≡ some (code, t)
    → terminated_code states ≡ some code
unfolding termination_in terminated_code
terminated_code_lem [] code t h = ground arith
terminated_code_lem (cs ∷ states) code t h = elim (Option-cases cs.terminated) [
  | inl e ↦ ground (arith, e, terminated_code_lem states code t)
  | inr (x, e) ↦ ground (arith, e)
]

-- wait and inspect give the same exit code when the kubelet reports a terminated container.
pub exit_code_agrees :
    (codec : Codec) (now : ℕ) (pod : Pod) (code : ℤ) (t : ℕ)
    → termination_of pod ≡ some (code, t)
    → (exit_code_from_pod pod ≡ some code) × ((build_state codec now pod).exit_code ≡ code)
unfolding termination_of exit_code_from_pod build_state
exit_code_agrees codec now pod code t h =
    (ground (arith, terminated_code_lem pod.status.container_statuses code t h), ground (arith, h))

terminated_code-none :
    (states : List ContainerState) → termination_in states ≡ none → terminated_code states ≡ none
unfolding termination_in terminated_code
terminated_code-none [] h = refl
terminated_code-none (cs ∷ states) h = elim (Option-cases cs.terminated) [
  | inl e ↦ ground (arith, e, terminated_code-none states)
  | inr (x, e) ↦ ground (arith, e)
]

-- For a pod that failed with no terminated container, as an evicted one, wait gives the exit code 1
-- and inspect gives 0, with the state exited.
pub exit_code_evicted :
    (codec : Codec) (now : ℕ) (pod : Pod)
    → termination_of pod ≡ none
    → pod.status.phase ≡ Phase.failed
    → (exit_code_from_pod pod ≡ some (pos 1))
      × ((build_state codec now pod).exit_code ≡ pos 0)
      × ((build_state codec now pod).status ≡ exited)
unfolding termination_of exit_code_from_pod build_state is_phase docker_state_from_phase
exit_code_evicted codec now pod h failed =
    let running_on = terminated_code-none pod.status.container_statuses h in
    let apart : is_phase pod.status.phase Phase.succeeded ≡ false =
      ap (λ p. is_phase p Phase.succeeded) failed in
    let same : is_phase pod.status.phase Phase.failed ≡ true =
      ap (λ p. is_phase p Phase.failed) failed in
    let state : docker_state_from_phase pod.status.phase ≡ exited =
      ap docker_state_from_phase failed in
    (ground (arith, running_on, apart, same), ground (arith, h), ground (arith, h, state))
