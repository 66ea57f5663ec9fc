-- ===== src/Forwarder/Registry.antt =====
-- internal/forwarder/forwarder.go: the registry of open handles by container ID. A handle is known
-- by a number; `closed` lists the handles whose Close was called, latest first, and `close_error` is
-- what Close returns. The mutex makes each method one step.
pub mod Ledger
use docker_in_kubernetes.Prelude.{
  ℕ, Bool, true, false, Option, none, some, List, [], ◌∷◌, ◌++◌, map, Text, Dict, lookup, insert,
  delete,
}

pub record Registry : Type 0 where
  pub handles : Dict ℕ
  pub closed : List ℕ

abbrev pub new_registry : Registry
new_registry = record { handles = []; closed = [] }

-- Method Set.
unfoldable pub set_handle : Registry → Text → ℕ → Registry
set_handle r id h = elim (lookup id r.handles) [
  | some prev ↦ record { handles = insert id h r.handles; closed = prev ∷ r.closed }
  | none ↦ record r { handles = insert id h r.handles }
]

unfoldable pub has : Registry → Text → Bool
has r id = elim (lookup id r.handles) [ some h ↦ true | none ↦ false ]

module _ (close_error : ℕ → Option Text) where
  -- Method Close, with the error that it returns.
  unfoldable pub close : Registry → Text → Registry × Option Text
  close r id = elim (lookup id r.handles) [
    | some h ↦ (record { handles = delete id r.handles; closed = h ∷ r.closed }, close_error h)
    | none ↦ (record r { handles = delete id r.handles }, none)
  ]

  -- The loop of Shutdown: the handles closed, and the errors.
  close_all : List ℕ → List ℕ → List ℕ × List Text
  close_all closed [] = (closed, [])
  close_all closed (h ∷ hs) =
      let (closed', errs) = close_all (h ∷ closed) hs in
      elim (close_error h) [ some err ↦ (closed', err ∷ errs) | none ↦ (closed', errs) ]

  unfoldable pub shutdown : Registry → Registry × List Text
  unfolding close_all
  shutdown r =
      let (closed, errs) = close_all r.closed (map (λ e. e.1) r.handles) in
      (record { handles = []; closed = closed }, errs)
