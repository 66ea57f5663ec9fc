-- ===== src/Server/Router.antt =====
-- internal/server/server.go and info.go: the version prefix of a path, and the counts of docker info.
pub mod Version
pub mod Routes
pub mod Paths
pub mod Dispatch
pub mod Info
use docker_in_kubernetes.Prelude.{
  ℕ, suc, ◌+◌, Bool, true, false, ◌&&◌, Option, none, some, List, [], ◌∷◌, Text, text, leb, ◌==◌,
  if◌then◌else◌, cut_prefix, length,
}
use docker_in_kubernetes.K8s.{PodStore, done, fails, is_phase}
use docker_in_kubernetes.Pod.{Pod, Phase}

abbrev pub is_digit : ℕ → Bool
is_digit c = leb b'0' c && leb c b'9'

-- What follows the digits that a text begins with.
unfoldable pub after_digits : Text → Text
after_digits [] = []
after_digits (c ∷ s) = let rest = after_digits s in if is_digit c then rest else c ∷ s

-- `[0-9]+`, and then what follows it.
unfoldable pub some_digits : Text → Option Text
unfolding after_digits
some_digits [] = none
some_digits (c ∷ s) = if is_digit c then some (after_digits s) else none

-- What follows the match of `^/v[0-9]+\.[0-9]+`.
unfoldable pub version_prefix : Text → Option Text
unfolding some_digits
version_prefix (s1 ∷ s2 ∷ s) =
    let minor : Option Text = elim (some_digits s) [
      | some (dot ∷ t) ↦ if dot == b'.' then some_digits t else none
      | some [] ↦ none
      | none ↦ none
    ] in
    if (s1 == b'/') && (s2 == b'v') then minor else none
version_prefix s = none

-- The path that stripVersionPrefix hands on.
unfoldable pub strip_version_prefix : Text → Text
unfolding version_prefix
strip_version_prefix path = elim (version_prefix path) [
  | none ↦ path
  | some [] ↦ b'/' ∷ []
  | some (c ∷ rest) ↦ if c == b'/' then c ∷ rest else path
]

unfoldable pub running_in : List Pod → ℕ
unfolding is_phase
running_in [] = 0
running_in (p ∷ pods) =
    let rest = running_in pods in if is_phase p.status.phase Phase.running then suc rest else rest

-- containerCounts, the total first.
unfoldable pub container_counts {ℓ} : {S : Type ℓ} → Option (PodStore S) → S → ℕ × ℕ
unfolding running_in
container_counts none s = (0, 0)
container_counts (some pods) s = elim (pods.list s) [
  | fails e ↦ (0, 0)
  | done found ↦ (length found, running_in found)
]
