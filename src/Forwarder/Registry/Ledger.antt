-- ===== src/Forwarder/Registry/Ledger.antt =====
-- The registry loses no handle and closes none twice (internal/forwarder/forwarder.go).
use mathlib.Core.Path.{subst}
use mathlib.Core.List.{perm_middle, perm_append_comm}
use mathlib.Core.List.Perm
use docker_in_kubernetes.Prelude.{
  ℕ, ◌≡◌, ◌≢◌, refl, inl, inr, Option, none, some, List, [], ◌∷◌, ◌++◌, map, Perm, Text, arith,
  text_eq, text_eq_iff, Dict, lookup, insert, delete, Distinct, Distinct-insert, Distinct-delete,
  Option-cases, Bool-cases, All, append-nil, append_assoc,
}
use docker_in_kubernetes.Forwarder.Registry.{
  Registry, new_registry, set_handle, close, close_all, shutdown,
}

abbrev pub handles_of : Dict ℕ → List ℕ
handles_of m = map (λ e. e.1) m

-- Every handle that the registry knows of: the ones closed, and the ones registered.
abbrev pub known : Registry → List ℕ
known r = r.closed ++ handles_of r.handles

insert_absent :
    (k : Text) (h : ℕ) (m : Dict ℕ)
    → lookup k m ≡ none
    → Perm (handles_of (insert k h m)) (h ∷ handles_of m)
unfolding lookup insert
insert_absent k h [] e = Perm.refl (h ∷ [])
insert_absent k h ((j, w) ∷ m) e = elim (Bool-cases (text_eq j k)) [
  | inl same ↦ absurd (ground arith)
  | inr other ↦
      rw (other, insert)
        (Perm.trans (Perm.cons w (insert_absent k h m (ground arith)))
          (Perm.swap h w (handles_of m)))
]

insert_present :
    (k : Text) (h v : ℕ) (m : Dict ℕ)
    → lookup k m ≡ some v
    → Perm (v ∷ handles_of (insert k h m)) (h ∷ handles_of m)
unfolding lookup insert
insert_present k h v [] e = absurd (ground arith)
insert_present k h v ((j, w) ∷ m) e = elim (Bool-cases (text_eq j k)) [
  | inl same ↦
      let found : w ≡ v = ground arith in rw (same, insert, found) (Perm.swap h v (handles_of m))
  | inr other ↦
      rw (other, insert)
        (Perm.trans (Perm.swap w v (handles_of (insert k h m))) (
          Perm.trans (Perm.cons w (insert_present k h v m (ground arith)))
            (Perm.swap h w (handles_of m))))
]

delete_absent : (k : Text) (m : Dict ℕ) → lookup k m ≡ none → delete k m ≡ m
unfolding lookup delete
delete_absent k [] e = refl
delete_absent k ((j, w) ∷ m) e = ground (arith, delete_absent k m)

delete_fresh : (k : Text) (m : Dict ℕ) → All (λ e. e.0 ≢ k) m → delete k m ≡ m
unfolding delete
delete_fresh k [] d = refl
delete_fresh k ((j, w) ∷ m) d = ground (arith, text_eq_iff j k, delete_fresh k m d.1)

delete_present :
    (k : Text) (v : ℕ) (m : Dict ℕ)
    → Distinct m
    → lookup k m ≡ some v
    → Perm (v ∷ handles_of (delete k m)) (handles_of m)
unfolding lookup delete
delete_present k v [] d e = absurd (ground arith)
delete_present k v ((j, w) ∷ m) d e = elim (Bool-cases (text_eq j k)) [
  | inl same ↦
      let found : w ≡ v = ground arith in
      let key : j ≡ k = (text_eq_iff j k).0 same in
      rw (same, delete, found, delete_fresh k m (subst (λ x. All (λ e. e.0 ≢ x) m) key d.0))
        (Perm.refl (v ∷ handles_of m))
  | inr other ↦
      rw (other, delete)
        (Perm.trans (Perm.swap w v (handles_of (delete k m)))
          (Perm.cons w (delete_present k v m d.1 (ground arith))))
]

set_handle-known :
    (r : Registry) (id : Text) (h : ℕ) → Perm (known (set_handle r id h)) (h ∷ known r)
unfolding set_handle
set_handle-known r id h = elim (Option-cases (lookup id r.handles)) [
  | inl free ↦
      rw (free, set_handle)
        (Perm.trans (Perm.append_left r.closed (insert_absent id h r.handles free))
          (perm_middle r.closed (handles_of r.handles)))
  | inr (v, taken) ↦
      rw (taken, set_handle)
        (Perm.trans (Perm.symm (perm_middle r.closed (handles_of (insert id h r.handles)))) (
          Perm.trans (Perm.append_left r.closed (insert_present id h v r.handles taken))
            (perm_middle r.closed (handles_of r.handles))))
]

module _ (close_error : ℕ → Option Text) where
  close-known :
      (r : Registry) (id : Text)
      → Distinct r.handles
      → Perm (known (close close_error r id).0) (known r)
  unfolding close
  close-known r id d = elim (Option-cases (lookup id r.handles)) [
    | inl free ↦ rw (free, close, delete_absent id r.handles free) (Perm.refl (known r))
    | inr (v, taken) ↦
        rw (taken, close)
          (Perm.trans (Perm.symm (perm_middle r.closed (handles_of (delete id r.handles))))
            (Perm.append_left r.closed (delete_present id v r.handles d taken)))
  ]

  close_all-perm : (hs closed : List ℕ) → Perm (close_all close_error closed hs).0 (closed ++ hs)
  unfolding close_all
  close_all-perm [] closed = rw append-nil (Perm.refl closed)
  close_all-perm (h ∷ hs) closed = elim (Option-cases (close_error h)) [
    | inl fine ↦
        rw (fine, close_all)
          (Perm.trans (close_all-perm hs (h ∷ closed)) (Perm.symm (perm_middle closed hs)))
    | inr (err, failed) ↦
        rw (failed, close_all)
          (Perm.trans (close_all-perm hs (h ∷ closed)) (Perm.symm (perm_middle closed hs)))
  ]

  -- What the daemon does with its registry.
  pub data Call : Type 0 where
    sets : Text → ℕ → Call
    closes : Text → Call
    shuts_down : Call

  unfoldable pub step : Registry → Call → Registry
  step r (sets id h) = set_handle r id h
  step r (closes id) = (close close_error r id).0
  step r shuts_down = (shutdown close_error r).0

  unfoldable pub run : Registry → List Call → Registry
  run r [] = r
  run r (c ∷ cs) = run (step r c) cs

  -- The handles that the calls hand over.
  abbrev pub handed : List Call → List ℕ
  handed [] = []
  handed (sets id h ∷ cs) = h ∷ handed cs
  handed (closes id ∷ cs) = handed cs
  handed (shuts_down ∷ cs) = handed cs

  step-Distinct : (r : Registry) (c : Call) → Distinct r.handles → Distinct (step r c).handles
  unfolding step set_handle close shutdown
  step-Distinct r (sets id h) d = ground (arith, Distinct-insert id h r.handles d)
  step-Distinct r (closes id) d = ground (arith, Distinct-delete id r.handles d)
  step-Distinct r shuts_down d = tt

  step-known :
      (r : Registry) (c : Call)
      → Distinct r.handles
      → Perm (known (step r c)) (known r ++ handed (c ∷ []))
  unfolding step shutdown
  step-known r (sets id h) d =
      Perm.trans (set_handle-known r id h) (perm_append_comm (h ∷ []) (known r))
  step-known r (closes id) d = rw append-nil (close-known r id d)
  step-known r shuts_down d = simp append-nil (close_all-perm (handles_of r.handles) r.closed)

  run-known :
      (r : Registry) (cs : List Call)
      → Distinct r.handles
      → Perm (known (run r cs)) (known r ++ handed cs)
  unfolding run
  run-known r [] d = rw append-nil (Perm.refl (known r))
  run-known r (c ∷ cs) d =
      Perm.trans (run-known (step r c) cs (step-Distinct r c d))
        (Perm.trans (Perm.append_right (handed cs) (step-known r c d)) (handed_cons (known r) c cs))
    where
      handed_cons :
          (hs : List ℕ) (c : Call) (cs : List Call)
          → Perm ((hs ++ handed (c ∷ [])) ++ handed cs) (hs ++ handed (c ∷ cs))
      handed_cons hs (sets id h) cs = rw append_assoc (Perm.refl _)
      handed_cons hs (closes id) cs = rw append_assoc (Perm.refl _)
      handed_cons hs shuts_down cs = rw append_assoc (Perm.refl _)

  -- Whatever calls are made of a new registry, each handle handed over is registered or was closed,
  -- one or the other and once: the handles closed and the handles registered are together the
  -- handles handed over.
  pub run-new_registry : (cs : List Call) → Perm (known (run new_registry cs)) (handed cs)
  run-new_registry cs = run-known new_registry cs tt

  -- After a shutdown no handle is registered, and every handle handed over was closed once.
  pub shutdown-run :
      (cs : List Call)
      → let r : Registry = (shutdown close_error (run new_registry cs)).0 in
        (r.handles ≡ []) × Perm r.closed (handed cs)
  unfolding shutdown
  shutdown-run cs =
      let r : Registry = run new_registry cs in
      (refl, Perm.trans (close_all-perm (handles_of r.handles) r.closed) (run-new_registry cs))
