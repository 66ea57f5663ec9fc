-- ===== src/K8s/Finding.antt =====
-- internal/k8s/pods.go: what FindByID returns.
use docker_in_kubernetes.Prelude.{
  ℕ, true, false, List, [], ◌∷◌, ◌≡◌, ◌≢◌, ◌⊎◌, inl, inr, Text, All, arith, Bool-cases,
}
use docker_in_kubernetes.Pod.{Pod}
use docker_in_kubernetes.K8s.{
  Api, Outcome-cases, done, fails, PodError, not_found, is_managed, matches, scan, get, list,
  find_by_id, wrap,
}

-- What the API server promises: a pod read by name has that name, and the label selector of a list
-- selects the managed pods.
pub record IsApi {ℓ} {S : Type ℓ} (api : Api S) : Type ℓ where
  pub get_name : (s : S) (name : Text) (pod : Pod) → api.get s name ≡ done pod → pod.name ≡ name
  pub listed :
      (s : S) (pods : List Pod)
      → api.list_managed s ≡ done pods
      → All (λ p. is_managed p ≡ true) pods

module _ (sha256_hex : Text → Text) (ref : Text) where
  scan_sound :
      (pods : List Pod) (pod : Pod)
      → All (λ p. is_managed p ≡ true) pods
      → scan sha256_hex ref pods ≡ done pod
      → (is_managed pod ≡ true) × (matches sha256_hex ref pod ≡ true)
  unfolding scan
  scan_sound [] pod h k = ground arith
  scan_sound (p ∷ pods) pod (h, hs) k = elim (Bool-cases (matches sha256_hex ref p)) [
    | inl m ↦ ground (arith, m)
    | inr m ↦ scan_sound pods pod hs (ground (arith, m))
  ]

  scan_fails :
      (pods : List Pod) (e : PodError)
      → scan sha256_hex ref pods ≡ fails e
      → All (λ p. matches sha256_hex ref p ≡ false) pods
  unfolding scan
  scan_fails [] e k = tt
  scan_fails (p ∷ pods) e k = elim (Bool-cases (matches sha256_hex ref p)) [
    | inl m ↦ ground (arith, m)
    | inr m ↦ (m, scan_fails pods e (ground (arith, m)))
  ]

  scan-not_found :
      (pods : List Pod) (e : PodError) → scan sha256_hex ref pods ≡ fails e → e ≡ not_found
  unfolding scan
  scan-not_found [] e k = ground arith
  scan-not_found (p ∷ pods) e k = ground (arith, scan-not_found pods e)

module _ {ℓ} {S : Type ℓ} (api : Api S) (sha256_hex : Text → Text) where
  get_sound :
      (s : S) (name : Text) (pod : Pod)
      → IsApi api
      → get api s name ≡ done pod
      → (is_managed pod ≡ true) × (pod.name ≡ name)
  unfolding get wrap
  get_sound s name pod laws h = elim (Outcome-cases (api.get s name)) [
    | inr (x, e) ↦ ground (arith, e)
    | inl (p, e) ↦ elim (Bool-cases (is_managed p)) [
      | inl m ↦ ground (arith, e, m, laws.get_name s name p e)
      | inr m ↦ ground (arith, e, m)
    ]
  ]

  -- FindByID returns a managed pod only, and it is one that the reference names: its name, or its
  -- --name, full ID or short ID is the reference. The API server's promises are assumed.
  pub find_by_id_sound :
      (s : S) (ref : Text) (pod : Pod)
      → IsApi api
      → find_by_id api sha256_hex s ref ≡ done pod
      → (is_managed pod ≡ true) × ((pod.name ≡ ref) ⊎ (matches sha256_hex ref pod ≡ true))
  unfolding find_by_id list
  find_by_id_sound s [] pod laws h = ground arith
  find_by_id_sound s (c ∷ ref) pod laws h = elim (Outcome-cases (get api s (c ∷ ref))) [
    | inl (p, e) ↦ let (m, n) = get_sound s (c ∷ ref) pod laws (ground (arith, e)) in (m, inl n)
    | inr (x, e) ↦ elim (Outcome-cases (api.list_managed s)) [
      | inr (y, l) ↦ ground (arith, e, l)
      | inl (pods, l) ↦
          let (m, n) =
            scan_sound sha256_hex (c ∷ ref) pods pod (laws.listed s pods l)
              (ground (arith, e, l)) in
          (m, inr n)
    ]
  ]

  -- When the list succeeds, FindByID fails on a reference that is not empty just when no pod has it
  -- as its name, and no pod listed has it as its --name, full ID or short ID; the error is ErrNotFound.
  pub find_by_id_fails :
      (s : S) (c : ℕ) (ref : Text) (pods : List Pod) (e : PodError)
      → api.list_managed s ≡ done pods
      → find_by_id api sha256_hex s (c ∷ ref) ≡ fails e
      → ((pod : Pod) → get api s (c ∷ ref) ≢ done pod)
        × All (λ p. matches sha256_hex (c ∷ ref) p ≡ false) pods
        × (e ≡ not_found)
  unfolding find_by_id list
  find_by_id_fails s c ref pods e l h = elim (Outcome-cases (get api s (c ∷ ref))) [
    | inl (p, k) ↦ ground (arith, k)
    | inr (x, k) ↦
        let h' : scan sha256_hex (c ∷ ref) pods ≡ fails e = ground (arith, k, l) in
        (
          λ pod q. ground (arith, k, q),
          scan_fails sha256_hex (c ∷ ref) pods e h',
          scan-not_found sha256_hex (c ∷ ref) pods e h',
        )
  ]
