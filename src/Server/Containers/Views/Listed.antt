-- ===== src/Server/Containers/Views/Listed.antt =====
-- internal/server/containers.go: what docker ps lists, and in which order.
use mathlib.Core.List.Perm
use docker_in_kubernetes.Prelude.{
  Perm, sort_by-perm, ℕ, Bool, true, false, ◌&&◌, List, [], ◌∷◌, ◌++◌, map, ◌≡◌, refl, ◌⊎◌, inl,
  inr, Bool-cases, arith, if◌then◌else◌, filter, sort_by-All, sort_by-IsSorted, IsSorted,
  IsStrictWeak, All, All-imp, All-append, int_lt, int_lt_asym, int_lt_neg_trans,
}
use docker_in_kubernetes.Pod.{Pod}
use docker_in_kubernetes.Server.Containers.{LabelFilter, matches_label_filters}
use docker_in_kubernetes.Server.Containers.Handlers.{Context}
use docker_in_kubernetes.Server.Containers.Views.{listing, newer, is_shown}
use docker_in_kubernetes.Server.Pending.{PendingContainer}
use docker_in_kubernetes.Server.Summary.{
  build_summary, ContainerSummary, DockerState, running, created, exited, dead,
}

newer-IsStrictWeak : IsStrictWeak newer
newer-IsStrictWeak = record {
  asym = λ x y h. int_lt_asym y.created x.created h;
  neg_trans = λ x y z h k. int_lt_neg_trans z.created y.created x.created k h;
}

pub filter-All {ℓ} : {A : Type ℓ} (p : A → Bool) (l : List A) → All (λ x. p x ≡ true) (filter p l)
unfolding filter
filter-All p [] = tt
filter-All p (x ∷ l) = elim (Bool-cases (p x)) [
  | inl h ↦ rw (h, filter) (h, filter-All p l)
  | inr h ↦ rw (h, filter) (filter-All p l)
]

All-chosen {ℓ} :
    {A : Type ℓ} (all : Bool) (P : A → Type 0) (live staged : List A)
    → All P live
    → (all ≡ true → All P staged)
    → All P (if all then live ++ staged else live)
All-chosen true P live staged h k = All-append P live staged h (k refl)
All-chosen false P live staged h k = h

filter-append {ℓ} :
    {A : Type ℓ} (p : A → Bool) (l m : List A) → filter p (l ++ m) ≡ filter p l ++ filter p m
unfolding filter
filter-append p [] m = refl
filter-append p (x ∷ l) m = elim (Bool-cases (p x)) [
  | inl h ↦ rw (h, filter, filter-append p l m)
  | inr h ↦ rw (h, filter, filter-append p l m)
]

-- The order of docker ps: created at a later instant.
abbrev pub is_later : ContainerSummary → ContainerSummary → Bool
is_later a b = int_lt b.created a.created

-- That a container has the labels that the filters ask for.
abbrev pub passes : List LabelFilter → ContainerSummary → Bool
passes filters s = matches_label_filters s.labels filters

abbrev pub is_running : DockerState → Bool
is_running state = elim state [ running ↦ true | _ ↦ false ]

chosen-perm :
    (all : Bool) (filters : List LabelFilter) (live staged : List ContainerSummary)
    → Perm
        (if all
          then filter (is_shown all filters) live ++ filter (passes filters) staged
          else filter (is_shown all filters) live)
        (if all
          then filter (passes filters) (live ++ staged)
          else filter (λ s. is_running s.state && passes filters s) live)
chosen-perm true filters live staged =
    rw (filter-append (passes filters) live staged)
      (Perm.refl (filter (passes filters) live ++ filter (passes filters) staged))
chosen-perm false filters live staged =
    Perm.refl (filter (λ s. is_running s.state && passes filters s) live)

-- What a listed container has passed.
abbrev pub IsListed : Bool → List LabelFilter → ContainerSummary → Type 0
IsListed all filters s =
    (matches_label_filters s.labels filters ≡ true) × ((all ≡ true) ⊎ (s.state ≡ running))

state-cases : (state : DockerState) → (state ≡ running) ⊎ (is_running state ≡ false)
state-cases running = inl refl
state-cases created = inr refl
state-cases exited = inr refl
state-cases dead = inr refl

shown-IsListed :
    (all : Bool) (filters : List LabelFilter) (s : ContainerSummary)
    → is_shown all filters s ≡ true
    → IsListed all filters s
shown-IsListed all filters s h = (
  ground (arith, h),
  elim (state-cases s.state) [ inl r ↦ inr r | inr r ↦ inl (ground (arith, h, r, Bool-cases all)) ],
)

module _ {ℓ} {S : Type ℓ} (context : Context S) where
  -- With ?all=1 the list holds the pods and the pending containers, those that pass the label filters;
  -- without it, the pods that run and pass the filters, each as often as it is there. It is newest
  -- first, every container in it passes the label filters, and without ?all=1 every one is running.
  pub listing_lem :
      (now : ℕ) (all : Bool) (filters : List LabelFilter) (pods : List Pod)
      (pending : List PendingContainer)
      → let summary = build_summary context.codec context.sha256_hex now in
        Perm (listing context now all filters pods pending) (
          if all
          then filter (passes filters) (map summary pods ++ map (λ p. summary p.spec) pending)
          else filter (λ s. is_running s.state && passes filters s) (map summary pods))
        × IsSorted is_later (listing context now all filters pods pending)
        × All (IsListed all filters) (listing context now all filters pods pending)
  unfolding listing
  listing_lem now all filters pods pending =
      let summary = build_summary context.codec context.sha256_hex now in
      let live = filter (is_shown all filters) (map summary pods) in
      let staged = filter (passes filters) (map (λ p. summary p.spec) pending) in
      let live_listed : All (IsListed all filters) live =
        All-imp (shown-IsListed all filters) live
          (filter-All (is_shown all filters) (map summary pods)) in
      let chosen : List ContainerSummary = if all then live ++ staged else live in
      let chosen_listed : All (IsListed all filters) chosen =
        All-chosen all (IsListed all filters) live staged live_listed (λ a.
          All-imp (λ s h. (h, inl a)) staged
            (filter-All (passes filters) (map (λ p. summary p.spec) pending))) in
      (
        Perm.trans (sort_by-perm newer chosen)
            (chosen-perm all filters (map summary pods) (map (λ p. summary p.spec) pending)),
        sort_by-IsSorted newer newer-IsStrictWeak chosen,
        sort_by-All newer (IsListed all filters) chosen chosen_listed,
      )
