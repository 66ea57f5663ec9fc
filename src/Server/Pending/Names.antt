-- ===== src/Server/Pending/Names.antt =====
-- internal/server/pending.go: the names of the entries, through the writes of the store.
use docker_in_kubernetes.Prelude.{
  ℕ, false, ◌≢◌, none, [], ◌∷◌, ◌≡◌, sym, ◌⊎◌, inl, inr, Text, Dict, lookup, insert, delete, arith,
  Bool-cases, All, All-insert, All-delete, text_eq, text_eq_iff,
}
use docker_in_kubernetes.Server.Pending.{
  Signal, PendingContainer, mark_failed, err_pending_expired, is_expired, reap_loop, signal_at,
  find_loop, refers,
}
use docker_in_kubernetes.Server.Pending.Reaping.{reap_loop-All}

-- No two entries have the same --name.
abbrev pub HasOwnNames : Dict PendingContainer → Type 0
HasOwnNames [] = Unit
HasOwnNames ((id, p) ∷ m) =
    ((p.docker_name ≡ []) ⊎ All (λ e. e.1.docker_name ≢ p.docker_name) m) × HasOwnNames m

-- An entry that a reference does not find is not named by it.
pub find_loop-none :
    (ref : Text) (m : Dict PendingContainer)
    → find_loop ref m ≡ none
    → All (λ e. e.1.docker_name ≢ ref) m
unfolding find_loop refers
find_loop-none ref [] h = tt
find_loop-none ref ((id, p) ∷ m) h =
    let rest : find_loop ref m ≡ none = ground arith in
    (λ e. ground (arith, text_eq_iff p.docker_name ref, e), find_loop-none ref m rest)

pub HasOwnNames-insert :
    (p : PendingContainer) (m : Dict PendingContainer)
    → lookup p.id m ≡ none
    → HasOwnNames m
    → (p.docker_name ≡ []) ⊎ All (λ e. e.1.docker_name ≢ p.docker_name) m
    → HasOwnNames (insert p.id p m)
unfolding lookup insert
HasOwnNames-insert p [] l h (inl e) = (inl e, tt)
HasOwnNames-insert p [] l h (inr e) = (inr tt, tt)
HasOwnNames-insert p ((j, q) ∷ m) l (h, hs) k =
    let other : text_eq j p.id ≡ false = ground (arith, Bool-cases (text_eq j p.id)) in
    let none' : lookup p.id m ≡ none = ground (arith, other) in
    let k' : (p.docker_name ≡ []) ⊎ All (λ e. e.1.docker_name ≢ p.docker_name) m = elim k [
      | inl e ↦ inl e
      | inr n ↦ inr n.1
    ] in
    let rest = HasOwnNames-insert p m none' hs k' in
    let head : (q.docker_name ≡ []) ⊎ All (λ e. e.1.docker_name ≢ q.docker_name) (insert p.id p m) =
      elim (Bool-cases (text_eq q.docker_name [])) [
        | inl e ↦ inl ((text_eq_iff q.docker_name []).0 e)
        | inr e ↦ elim h [
          | inl x ↦ inl x
          | inr x ↦
              let apart : p.docker_name ≢ q.docker_name = elim k [
                | inl y ↦ λ z. ground (arith, y, z, text_eq_iff q.docker_name [])
                | inr y ↦ λ z. y.0 (sym z)
              ] in
              inr (All-insert (λ e. e.1.docker_name ≢ q.docker_name) p.id p m apart x)
        ]
      ] in
    rw (other) (head, rest)

pub HasOwnNames-delete :
    (id : Text) (m : Dict PendingContainer) → HasOwnNames m → HasOwnNames (delete id m)
unfolding delete
HasOwnNames-delete id [] h = tt
HasOwnNames-delete id ((j, q) ∷ m) (h, hs) =
    let rest = HasOwnNames-delete id m hs in
    let head : (q.docker_name ≡ []) ⊎ All (λ e. e.1.docker_name ≢ q.docker_name) (delete id m) =
      elim h [
        | inl e ↦ inl e
        | inr n ↦ inr (All-delete (λ e. e.1.docker_name ≢ q.docker_name) id m n)
      ] in
    elim (Bool-cases (text_eq j id)) [ inl e ↦ rw (e) rest | inr e ↦ rw (e) (head, rest) ]

pub HasOwnNames-reap :
    (now ttl : ℕ) (m : Dict PendingContainer) (signals : ℕ → Signal)
    → HasOwnNames m
    → HasOwnNames (reap_loop now ttl m signals).0
unfolding reap_loop
HasOwnNames-reap now ttl [] signals h = tt
HasOwnNames-reap now ttl ((id, p) ∷ m) signals (h, hs) =
    let marked = signal_at p.signal (mark_failed err_pending_expired) signals in
    let head : (p.docker_name ≡ [])
        ⊎ All (λ e. e.1.docker_name ≢ p.docker_name) (reap_loop now ttl m signals).0 =
      elim h [
        | inl e ↦ inl e
        | inr n ↦ inr (reap_loop-All now ttl (λ e. e.1.docker_name ≢ p.docker_name) m signals n)
      ] in
    elim (Bool-cases (is_expired now ttl p)) [
      | inl e ↦ rw (e) (HasOwnNames-reap now ttl m marked hs)
      | inr e ↦ rw (e) (head, HasOwnNames-reap now ttl m signals hs)
    ]
