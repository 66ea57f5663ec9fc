-- ===== src/Podspec/Ports/Loops.antt =====
-- The two loops of parsePortBindings, up to the order of the maps (internal/podspec/spec.go).
use mathlib.Core.Logic.{∥∥₁_elim}
use mathlib.Core.Path.{subst, subst₂}
use mathlib.Core.List.{Permᴰ, perm_append_comm}
use mathlib.Core.List.Perm
use docker_in_kubernetes.Prelude.{
  ℕ, ◌≡◌, refl, ◌∙◌, Bool, true, false, List, [], ◌∷◌, ◌++◌, Perm, Text, text, arith, if◌then◌else◌,
  append_assoc,
}
use docker_in_kubernetes.Podspec.Ports.{
  PortMapping, Result, ok, err, ◌>>=◌, context, parse_port_spec, mappings_of, bind_loop, is_bound,
  expose_loop,
}

module _ {ℓ} {A : Type ℓ} where
  perm_swap_append : (xs ys zs : List A) → Perm (xs ++ (ys ++ zs)) (ys ++ (xs ++ zs))
  perm_swap_append xs ys zs =
      rw (← append_assoc xs ys zs, ← append_assoc ys xs zs)
        (Perm.append_right zs (perm_append_comm xs ys))

abbrev pub Bound : Type 0
Bound = List (ℕ × Text) × List PortMapping

-- Two results that differ in order, or in the text of an error.
abbrev pub SameBound : Result Bound → Result Bound → Type 0
SameBound (ok a) (ok b) = Perm a.0 b.0 × Perm a.1 b.1
SameBound (err e) (err f) = Unit {0}
SameBound (ok a) (err f) = ⊥
SameBound (err e) (ok b) = ⊥

SameBound-trans : (r s t : Result Bound) → SameBound r s → SameBound s t → SameBound r t
SameBound-trans (ok a) (ok b) (ok c) h k = (Perm.trans h.0 k.0, Perm.trans h.1 k.1)
SameBound-trans (ok a) (ok b) (err c) h k = absurd k
SameBound-trans (ok a) (err b) t h k = absurd h
SameBound-trans (err a) (ok b) t h k = absurd h
SameBound-trans (err a) (err b) (ok c) h k = absurd k
SameBound-trans (err a) (err b) (err c) h k = tt

-- One round of the loop, from the parsed key and the rest's result.
abbrev bind_step : Result (ℕ × Text) → List Text → Result Bound → Result Bound
bind_step key binds rest = key >>= λ k. rest >>= λ r. ok (k ∷ r.0, mappings_of k.0 k.1 binds ++ r.1)

bind_step-SameBound :
    (key : Result (ℕ × Text)) (binds : List Text) (r s : Result Bound)
    → SameBound r s
    → SameBound (bind_step key binds r) (bind_step key binds s)
bind_step-SameBound (err e) binds r s h = tt
bind_step-SameBound (ok k) binds (ok a) (ok b) h =
    (Perm.cons k h.0, Perm.append_left (mappings_of k.0 k.1 binds) h.1)
bind_step-SameBound (ok k) binds (ok a) (err b) h = absurd h
bind_step-SameBound (ok k) binds (err a) (ok b) h = absurd h
bind_step-SameBound (ok k) binds (err a) (err b) h = tt

bind_step_swap :
    (key key' : Result (ℕ × Text)) (binds binds' : List Text) (r : Result Bound)
    → SameBound
        (bind_step key binds (bind_step key' binds' r))
        (bind_step key' binds' (bind_step key binds r))
bind_step_swap (err e) (err f) binds binds' r = tt
bind_step_swap (err e) (ok l) binds binds' r = tt
bind_step_swap (ok k) (err f) binds binds' r = tt
bind_step_swap (ok k) (ok l) binds binds' (err e) = tt
bind_step_swap (ok k) (ok l) binds binds' (ok a) = (
  Perm.swap l k a.0,
  perm_swap_append (mappings_of k.0 k.1 binds) (mappings_of l.0 l.1 binds') a.1,
)

abbrev bind_key : Text → Result (ℕ × Text)
bind_key spec = context (text "port \"" ++ spec ++ text "\": ") (parse_port_spec spec)

SameBound-refl : (r : Result Bound) → SameBound r r
SameBound-refl (ok a) = (Perm.refl a.0, Perm.refl a.1)
SameBound-refl (err e) = tt

pub bind_loop-SameBound :
    {m m' : List (Text × List Text)} → Permᴰ m m' → SameBound (bind_loop m) (bind_loop m')
unfolding bind_loop
bind_loop-SameBound Permᴰ.nil = (Perm.refl [], Perm.refl [])
bind_loop-SameBound (Permᴰ.cons {a} {b} {l₁} {l₂} e p) =
    subst (λ x. SameBound (bind_loop (a ∷ l₁)) (bind_loop (x ∷ l₂))) e
      (bind_step-SameBound (bind_key a.0) a.1 (bind_loop l₁) (bind_loop l₂) (bind_loop-SameBound p))
bind_loop-SameBound (Permᴰ.swap {a} {b} {l} e f) =
    subst₂ (λ x y. SameBound (bind_loop (a ∷ b ∷ l)) (bind_loop (x ∷ y ∷ l))) f e
      (bind_step_swap (bind_key a.0) (bind_key b.0) a.1 b.1 (bind_loop l))
bind_loop-SameBound (Permᴰ.trans {l₁} {l₂} {l₃} p q) =
    SameBound-trans (bind_loop l₁) (bind_loop l₂) (bind_loop l₃) (bind_loop-SameBound p)
      (bind_loop-SameBound q)

is_bound-permᴰ :
    (key : ℕ × Text) {b c : List (ℕ × Text)} → Permᴰ b c → is_bound key b ≡ is_bound key c
unfolding is_bound
is_bound-permᴰ key Permᴰ.nil = refl
is_bound-permᴰ key (Permᴰ.cons {a} {b} {l₁} {l₂} e p) =
    subst (λ x. is_bound key (a ∷ l₁) ≡ is_bound key (x ∷ l₂)) e
      (ground (arith, is_bound-permᴰ key p))
is_bound-permᴰ key (Permᴰ.swap {a} {b} {l} e f) =
    subst₂ (λ x y. is_bound key (a ∷ b ∷ l) ≡ is_bound key (x ∷ y ∷ l)) f e (ground arith)
is_bound-permᴰ key (Permᴰ.trans p q) = is_bound-permᴰ key p ∙ is_bound-permᴰ key q

Bool-set : IsSet Bool
Bool-set = hlevel

is_bound-perm :
    (key : ℕ × Text) (b c : List (ℕ × Text)) → Perm b c → is_bound key b ≡ is_bound key c
is_bound-perm key b c p = ∥∥₁_elim p (Bool-set _ _) (is_bound-permᴰ key)

abbrev pub SameOut : Result (List PortMapping) → Result (List PortMapping) → Type 0
SameOut (ok a) (ok b) = Perm a b
SameOut (err e) (err f) = Unit {0}
SameOut (ok a) (err f) = ⊥
SameOut (err e) (ok b) = ⊥

SameOut-trans : (r s t : Result (List PortMapping)) → SameOut r s → SameOut s t → SameOut r t
SameOut-trans (ok a) (ok b) (ok c) h k = Perm.trans h k
SameOut-trans (ok a) (ok b) (err c) h k = absurd k
SameOut-trans (ok a) (err b) t h k = absurd h
SameOut-trans (err a) (ok b) t h k = absurd h
SameOut-trans (err a) (err b) (ok c) h k = absurd k
SameOut-trans (err a) (err b) (err c) h k = tt

module _ (b c : List (ℕ × Text)) (p : Perm b c) where
  abbrev expose_step :
      List (ℕ × Text) → Result (ℕ × Text) → Result (List PortMapping) → Result (List PortMapping)
  expose_step bound key rest = key >>= λ k. rest >>= λ r. ok (
      if is_bound k bound
      then r
      else record { host_port = []; container_port = k.0; protocol = k.1 } ∷ r)

  expose_step-SameOut :
      (key : Result (ℕ × Text)) (r s : Result (List PortMapping))
      → SameOut r s
      → SameOut (expose_step b key r) (expose_step c key s)
  expose_step-SameOut (err e) r s h = tt
  expose_step-SameOut (ok k) (err e) (err f) h = tt
  expose_step-SameOut (ok k) (ok x) (err f) h = absurd h
  expose_step-SameOut (ok k) (err e) (ok y) h = absurd h
  expose_step-SameOut (ok k) (ok x) (ok y) h = rw (is_bound-perm k b c p) (kept (is_bound k c))
    where
      kept :
          (bound : Bool)
          → Perm
              (if bound
                then x
                else record { host_port = []; container_port = k.0; protocol = k.1 } ∷ x)
              (if bound
                then y
                else record { host_port = []; container_port = k.0; protocol = k.1 } ∷ y)
      kept true = h
      kept false = Perm.cons _ h

  expose_step_swap :
      (key key' : Result (ℕ × Text)) (r : Result (List PortMapping))
      → SameOut
          (expose_step b key (expose_step b key' r))
          (expose_step c key' (expose_step c key r))
  expose_step_swap (err e) (err f) r = tt
  expose_step_swap (err e) (ok l) r = tt
  expose_step_swap (ok k) (err f) r = tt
  expose_step_swap (ok k) (ok l) (err e) = tt
  expose_step_swap (ok k) (ok l) (ok x) =
      rw (is_bound-perm k b c p, is_bound-perm l b c p) (swapped (is_bound k c) (is_bound l c))
    where
      mapping : ℕ × Text → PortMapping
      mapping key = record { host_port = []; container_port = key.0; protocol = key.1 }

      swapped :
          (u v : Bool)
          → Perm
              (if u
                then (if v
                    then x
                    else record { host_port = []; container_port = l.0; protocol = l.1 } ∷ x)
                else record { host_port = []; container_port = k.0; protocol = k.1 }
                  ∷ (if v
                      then x
                      else record { host_port = []; container_port = l.0; protocol = l.1 } ∷ x))
              (if v
                then (if u
                    then x
                    else record { host_port = []; container_port = k.0; protocol = k.1 } ∷ x)
                else record { host_port = []; container_port = l.0; protocol = l.1 }
                  ∷ (if u
                      then x
                      else record { host_port = []; container_port = k.0; protocol = k.1 } ∷ x))
      swapped true true = Perm.refl x
      swapped true false = Perm.refl _
      swapped false true = Perm.refl _
      swapped false false = Perm.swap _ _ x

abbrev expose_key : Text → Result (ℕ × Text)
expose_key spec = context (text "exposed port \"" ++ spec ++ text "\": ") (parse_port_spec spec)

expose_loop-bound :
    (b c : List (ℕ × Text))
    → Perm b c
    → (l : List Text) → SameOut (expose_loop b l) (expose_loop c l)
unfolding expose_loop
expose_loop-bound b c p [] = Perm.refl []
expose_loop-bound b c p (x ∷ l) =
    expose_step-SameOut b c p (expose_key x) (expose_loop b l) (expose_loop c l)
      (expose_loop-bound b c p l)

pub expose_loop-SameOut :
    (b c : List (ℕ × Text))
    → Perm b c
    → {e e' : List Text} → Permᴰ e e'
    → SameOut (expose_loop b e) (expose_loop c e')
unfolding expose_loop
expose_loop-SameOut b c p Permᴰ.nil = Perm.refl []
expose_loop-SameOut b c p (Permᴰ.cons {a = x} {l₁} {l₂} e q) =
    subst (λ y. SameOut (expose_loop b (x ∷ l₁)) (expose_loop c (y ∷ l₂))) e
      (expose_step-SameOut b c p (expose_key x) (expose_loop b l₁) (expose_loop c l₂)
        (expose_loop-SameOut b c p q))
expose_loop-SameOut b c p (Permᴰ.swap {a = x} {b = y} {l} e f) =
    subst₂ (λ u v. SameOut (expose_loop b (x ∷ y ∷ l)) (expose_loop c (u ∷ v ∷ l))) f e
      (SameOut-trans _ _ _ (expose_step_swap b c p (expose_key x) (expose_key y) (expose_loop b l))
        (expose_step-SameOut c c (Perm.refl c) (expose_key y) _ _
          (expose_step-SameOut c c (Perm.refl c) (expose_key x) _ _ (expose_loop-bound b c p l))))
expose_loop-SameOut b c p (Permᴰ.trans {l₁} {l₂} {l₃} q r) =
    SameOut-trans (expose_loop b l₁) (expose_loop c l₂) (expose_loop c l₃)
      (expose_loop-SameOut b c p q) (expose_loop-SameOut c c (Perm.refl c) r)
