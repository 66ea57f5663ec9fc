-- ===== src/Images/Order.antt =====
-- The order of List (internal/images/store.go).
use docker_in_kubernetes.Prelude.{
  Perm, arith, IsSorted, IsStrictWeak, sort_by-perm, sort_by-IsSorted,
}
use docker_in_kubernetes.Images.{Store, list, newer, values}

newer-IsStrictWeak : IsStrictWeak newer
newer-IsStrictWeak = record { asym = λ x y h. ground arith; neg_trans = λ x y z h k. ground arith }

-- List returns every stored record once, newest first.
pub list_lem : (s : Store) → Perm (list s) (values s.m) × IsSorted newer (list s)
unfolding list
list_lem s =
    (sort_by-perm newer (values s.m), sort_by-IsSorted newer newer-IsStrictWeak (values s.m))
