-- ===== src/Server/Pending/Reserved.antt =====
-- internal/server/pending.go: what reserve keeps, and how a reservation is found again.
use docker_in_kubernetes.Prelude.{
  ℕ, true, false, ◌≢◌, none, some, [], ◌∷◌, ◌≡◌, refl, sym, ◌∙◌, ◌⊎◌, inl, inr, Text, Dict, lookup,
  delete, arith, Bool-cases, Option-cases, Distinct, Distinct-insert, Distinct-delete, All,
  All-insert, All-delete, ◌==◌, lookup-All, lookup-insert_self,
}
use docker_in_kubernetes.Server.Pending.{
  Signal, PendingContainer, PendingStore, mark_failed, err_pending_expired, is_expired, reap_loop,
  reap, signal_at, find_loop, find, put, is_free, reserve, get_by_ref, remove,
}
use docker_in_kubernetes.Server.Pending.Reaping.{reap_loop-All, reap_loop-lookup}
use docker_in_kubernetes.Server.Pending.Names.{
  HasOwnNames, find_loop-none, HasOwnNames-insert, HasOwnNames-delete, HasOwnNames-reap,
}

-- Each entry stands under its own ID, once, and the names are unique.
pub record IsWellformed (s : PendingStore) : Type 0 where
  pub distinct : Distinct s.m
  pub own_ids : All (λ e. e.1.id ≡ e.0) s.m
  pub own_names : HasOwnNames s.m

Distinct-reap :
    (now ttl : ℕ) (m : Dict PendingContainer) (signals : ℕ → Signal)
    → Distinct m
    → Distinct (reap_loop now ttl m signals).0
unfolding reap_loop
Distinct-reap now ttl [] signals h = tt
Distinct-reap now ttl ((id, p) ∷ m) signals (h, hs) = elim (Bool-cases (is_expired now ttl p)) [
  | inl e ↦
      rw (e)
        (Distinct-reap now ttl m (signal_at p.signal (mark_failed err_pending_expired) signals) hs)
  | inr e ↦
      rw (e) (reap_loop-All now ttl (λ x. x.0 ≢ id) m signals h, Distinct-reap now ttl m signals hs)
]

reap-IsWellformed : (now : ℕ) (s : PendingStore) → IsWellformed s → IsWellformed (reap now s)
unfolding reap
reap-IsWellformed now s w =
    let reaped : IsWellformed (record s {
      m = (reap_loop now s.ttl s.m s.signals).0;
      signals = (reap_loop now s.ttl s.m s.signals).1;
    }) =
      record {
        distinct = Distinct-reap now s.ttl s.m s.signals w.distinct;
        own_ids = reap_loop-All now s.ttl (λ e. e.1.id ≡ e.0) s.m s.signals w.own_ids;
        own_names = HasOwnNames-reap now s.ttl s.m s.signals w.own_names;
      } in
    elim (Bool-cases (s.ttl == 0)) [ inl e ↦ rw (e) w | inr e ↦ rw (e) reaped ]

-- What is_free has checked.
is_free_lem :
    (p : PendingContainer) (name : Text) (m : Dict PendingContainer)
    → is_free p name m ≡ true
    → (lookup p.id m ≡ none) × ((name ≡ []) ⊎ All (λ e. e.1.docker_name ≢ name) m)
unfolding is_free find
is_free_lem p [] m h = elim (Option-cases (lookup p.id m)) [
  | inl l ↦ (l, inl refl)
  | inr (q, l) ↦ ground (arith, l)
]
is_free_lem p (c ∷ cs) m h = elim (Option-cases (lookup p.id m)) [
  | inr (q, l) ↦ ground (arith, l)
  | inl l ↦ elim (Option-cases (lookup (c ∷ cs) m)) [
    | inr (q, k) ↦ ground (arith, l, k)
    | inl k ↦ elim (Option-cases (find_loop (c ∷ cs) m)) [
      | inr (q, f) ↦ ground (arith, l, k, f)
      | inl f ↦ (l, inr (find_loop-none (c ∷ cs) m f))
    ]
  ]
]

put-IsWellformed :
    (p : PendingContainer) (s : PendingStore)
    → IsWellformed s
    → lookup p.id s.m ≡ none
    → (p.docker_name ≡ []) ⊎ All (λ e. e.1.docker_name ≢ p.docker_name) s.m
    → IsWellformed (put p s)
unfolding put
put-IsWellformed p s w absent unique = record {
  distinct = Distinct-insert p.id p s.m w.distinct;
  own_ids = All-insert (λ e. e.1.id ≡ e.0) p.id p s.m refl w.own_ids;
  own_names = HasOwnNames-insert p s.m absent w.own_names unique;
}

-- The store stays well formed: reserve, with the reaping that it does, and remove keep every entry
-- once, under its own ID, and the names unique, when reserve is called with the entry's own name, as create does.
pub reserve-IsWellformed :
    (now : ℕ) (p : PendingContainer) (s : PendingStore)
    → IsWellformed s
    → IsWellformed (reserve now p p.docker_name s).0 × IsWellformed (remove p.id s)
unfolding reserve remove
reserve-IsWellformed now p s w =
    let reaped = reap-IsWellformed now s w in
    let removed : IsWellformed (record s { m = delete p.id s.m }) = record {
      distinct = Distinct-delete p.id s.m w.distinct;
      own_ids = All-delete (λ e. e.1.id ≡ e.0) p.id s.m w.own_ids;
      own_names = HasOwnNames-delete p.id s.m w.own_names;
    } in
    elim (Bool-cases (is_free p p.docker_name (reap now s).m)) [
      | inr taken ↦ (rw (taken) reaped, removed)
      | inl free ↦
          let (absent, unique) = is_free_lem p p.docker_name (reap now s).m free in
          (rw (free) (put-IsWellformed p (reap now s) reaped absent unique), removed)
    ]

reserve-stored :
    (now : ℕ) (p : PendingContainer) (name : Text) (s : PendingStore)
    → (reserve now p name s).1 ≡ true
    → (lookup p.id (reserve now p name s).0.m ≡ some p) × ((reserve now p name s).0.ttl ≡ s.ttl)
unfolding reserve put reap
reserve-stored now p name s h = elim (Bool-cases (is_free p name (reap now s).m)) [
  | inr taken ↦ ground (arith, taken)
  | inl free ↦
      rw (free) (lookup-insert_self p.id p (reap now s).m, ground (arith, Bool-cases (s.ttl == 0)))
]

reap-lookup :
    (now : ℕ) (id : Text) (p : PendingContainer) (s : PendingStore)
    → lookup id s.m ≡ some p
    → is_expired now s.ttl p ≡ false
    → lookup id (reap now s).m ≡ some p
unfolding reap
reap-lookup now id p s h e =
    ground (arith, reap_loop-lookup now s.ttl id s.m s.signals p h e, Bool-cases (s.ttl == 0))

-- A stored entry takes its ID, and its name if it has one.
is_free-taken :
    (p q : PendingContainer) (m : Dict PendingContainer)
    → lookup p.id m ≡ some p
    → (q.id ≡ p.id) ⊎ ((p.docker_name ≢ []) × (q.docker_name ≡ p.docker_name))
    → is_free q q.docker_name m ≢ true
is_free-taken p q m h (inl same) free =
    let absent = (is_free_lem q q.docker_name m free).0 in ground (arith, h, same, absent)
is_free-taken p q m h (inr (named, same)) free = elim (is_free_lem q q.docker_name m free).1 [
  | inl e ↦ named (sym same ∙ e)
  | inr apart ↦ lookup-All (λ e. e.1.docker_name ≢ q.docker_name) p.id m p apart h (sym same)
]

-- A reservation that was made holds: as long as the entry has not expired, its ID finds it, and a
-- second reservation of the same ID, or of the same name if it has one, is refused.
pub reserve_holds :
    (now later : ℕ) (p q : PendingContainer) (s : PendingStore)
    → (reserve now p p.docker_name s).1 ≡ true
    → is_expired later s.ttl p ≡ false
    → (q.id ≡ p.id) ⊎ ((p.docker_name ≢ []) × (q.docker_name ≡ p.docker_name))
    → ((get_by_ref later p.id (reserve now p p.docker_name s).0).1 ≡ some p)
      × ((reserve later q q.docker_name (reserve now p p.docker_name s).0).1 ≡ false)
unfolding reserve get_by_ref find
reserve_holds now later p q s h e clash =
    let s' = (reserve now p p.docker_name s).0 in
    let (stored, ttl) = reserve-stored now p p.docker_name s h in
    let there = reap-lookup later p.id p s' stored (ground (arith, ttl, e)) in
    let taken = is_free-taken p q (reap later s').m there clash in
    (
      ground (arith, there),
      elim (Bool-cases (is_free q q.docker_name (reap later s').m)) [
        | inl free ↦ elim (taken free) [ ]
        | inr refused ↦ rw (refused) refl
      ],
    )
