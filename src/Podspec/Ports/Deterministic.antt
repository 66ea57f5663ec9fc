-- ===== src/Podspec/Ports/Deterministic.antt =====
-- The mappings of a request do not depend on the order in which Go visits its maps
-- (parsePortBindings of internal/podspec/spec.go).
use mathlib.Core.Logic.{∥∥₁_elim}
use mathlib.Core.List.{Perm-prop}
use mathlib.Core.HLevel.{×_prop}
use mathlib.Core.List.Perm
use docker_in_kubernetes.Prelude.{
  ℕ, ◌≡◌, refl, ap, ◌∙◌, ◌↔◌, List, ◌++◌, Perm, Text, sort_by, sort_by-eq_of_perm,
}
use docker_in_kubernetes.Podspec.Ports.{
  PortMapping, Result, ok, err, ◌>>=◌, bind_loop, expose_loop, mapping_less, parse_port_bindings,
}
use docker_in_kubernetes.Podspec.Ports.Order.{mapping_less-IsStrictWeak, mapping_less_total}
use docker_in_kubernetes.Podspec.Ports.Loops.{
  Bound, SameBound, SameOut, bind_loop-SameBound, expose_loop-SameOut,
}

PortMapping-set : IsSet (List PortMapping)
PortMapping-set = hlevel

-- The whole function, from the results of its two loops.
finish : Result Bound → (List (ℕ × Text) → Result (List PortMapping)) → Result (List PortMapping)
finish bound expose =
    bound >>= λ b. expose b.0 >>= λ extra. ok (sort_by mapping_less (b.1 ++ extra))

finish-eq :
    (r s : Result Bound) (f g : List (ℕ × Text) → Result (List PortMapping))
    → SameBound r s
    → ((b c : List (ℕ × Text)) → Perm b c → SameOut (f b) (g c))
    → {out : List PortMapping} → finish r f ≡ ok out
    → finish s g ≡ ok out
unfolding finish
finish-eq (err e) s f g h k q = cc
finish-eq (ok a) (err e) f g h k q = absurd h
finish-eq (ok a) (ok b) f g h k {out} q = both (f a.0) (g b.0) (k a.0 b.0 h.0) q
  where
    both :
        (x y : Result (List PortMapping))
        → SameOut x y
        → (x >>= λ extra. ok (sort_by mapping_less (a.1 ++ extra))) ≡ ok out
        → (y >>= λ extra. ok (sort_by mapping_less (b.1 ++ extra))) ≡ ok out
    both (err e) y h' q = cc
    both (ok x) (err f) h' q = absurd h'
    both (ok x) (ok y) h' q =
        ap ok (
          sort_by-eq_of_perm mapping_less mapping_less-IsStrictWeak mapping_less_total
            PortMapping-set (Perm.symm (Perm.append h.1 h')))
        ∙ q

SameBound-prop : (r s : Result Bound) → IsProp (SameBound r s)
SameBound-prop (ok a) (ok b) = ×_prop Perm-prop Perm-prop
SameBound-prop (err e) (err f) = λ x y. refl
SameBound-prop (ok a) (err f) = λ x. absurd x
SameBound-prop (err e) (ok b) = λ x. absurd x

SameOut-prop : (r s : Result (List PortMapping)) → IsProp (SameOut r s)
SameOut-prop (ok a) (ok b) = Perm-prop
SameOut-prop (err e) (err f) = λ x y. refl
SameOut-prop (ok a) (err f) = λ x. absurd x
SameOut-prop (err e) (ok b) = λ x. absurd x

one_way :
    (bindings bindings' : List (Text × List Text)) (exposed exposed' : List Text)
    → Perm bindings bindings'
    → Perm exposed exposed'
    → (out : List PortMapping) → parse_port_bindings bindings exposed ≡ ok out
    → parse_port_bindings bindings' exposed' ≡ ok out
unfolding parse_port_bindings finish
one_way bindings bindings' exposed exposed' p q out h =
    finish-eq (bind_loop bindings) (bind_loop bindings') (λ b. expose_loop b exposed)
      (λ b. expose_loop b exposed') (∥∥₁_elim p (SameBound-prop _ _) bind_loop-SameBound)
      (λ b c same. ∥∥₁_elim q (SameOut-prop _ _) (expose_loop-SameOut b c same)) h

-- Two requests whose maps have the same entries get the same list of mappings, whatever order Go
-- visits the maps in, and one is refused exactly when the other is.
pub parse_port_bindings-perm :
    (bindings bindings' : List (Text × List Text)) (exposed exposed' : List Text)
    → Perm bindings bindings'
    → Perm exposed exposed'
    → (out : List PortMapping)
    → (parse_port_bindings bindings exposed ≡ ok out)
      ↔ (parse_port_bindings bindings' exposed' ≡ ok out)
parse_port_bindings-perm bindings bindings' exposed exposed' p q out = (
  one_way bindings bindings' exposed exposed' p q out,
  one_way bindings' bindings exposed' exposed (Perm.symm p) (Perm.symm q) out,
)
