-- ===== src/Podspec/Ports/Order.antt =====
-- The order that the mappings are sorted by is total (parsePortBindings of
-- internal/podspec/spec.go).

use docker_in_kubernetes.Prelude.{
  ◌≡◌, refl, true, false, [], ◌∷◌, Text, arith, text_eq_iff, text_lt, IsStrictWeak,
}
use docker_in_kubernetes.Podspec.Ports.{PortMapping, mapping_less}

text_lt_asym : (s t : Text) → text_lt s t ≡ true → text_lt t s ≡ false
unfolding text_lt
text_lt_asym [] [] h = cc
text_lt_asym [] (b ∷ t) h = refl
text_lt_asym (a ∷ s) [] h = cc
text_lt_asym (a ∷ s) (b ∷ t) h = ground (arith, text_lt_asym s t)

text_lt_total : (s t : Text) → text_lt s t ≡ false → text_lt t s ≡ false → s ≡ t
unfolding text_lt
text_lt_total [] [] h k = refl
text_lt_total [] (b ∷ t) h k = cc
text_lt_total (a ∷ s) [] h k = cc
text_lt_total (a ∷ s) (b ∷ t) h k = ground (arith, text_lt_total s t)

text_lt_neg_trans : (s t u : Text) → text_lt s t ≡ false → text_lt t u ≡ false → text_lt s u ≡ false
unfolding text_lt
text_lt_neg_trans [] [] u h k = k
text_lt_neg_trans [] (b ∷ t) u h k = cc
text_lt_neg_trans (a ∷ s) t [] h k = refl
text_lt_neg_trans (a ∷ s) [] (c ∷ u) h k = cc
text_lt_neg_trans (a ∷ s) (b ∷ t) (c ∷ u) h k = ground (arith, text_lt_neg_trans s t u)

pub mapping_less-IsStrictWeak : IsStrictWeak mapping_less
unfolding mapping_less
mapping_less-IsStrictWeak = record {
  asym = λ x y h. ground (
    arith,
    text_eq_iff x.protocol y.protocol,
    text_eq_iff y.protocol x.protocol,
    text_lt_asym x.protocol y.protocol,
    text_lt_asym x.host_port y.host_port,
  );
  neg_trans = λ x y z h k. ground (
    arith,
    text_eq_iff x.protocol y.protocol,
    text_eq_iff y.protocol z.protocol,
    text_eq_iff x.protocol z.protocol,
    text_lt_neg_trans x.protocol y.protocol z.protocol,
    text_lt_neg_trans x.host_port y.host_port z.host_port,
    text_lt_asym x.protocol y.protocol,
    text_lt_asym y.protocol z.protocol,
    text_lt_total x.protocol y.protocol,
    text_lt_total y.protocol x.protocol,
    text_lt_total y.protocol z.protocol,
    text_lt_total z.protocol y.protocol,
  );
}

pub mapping_less_total :
    (x y : PortMapping) → mapping_less x y ≡ false → mapping_less y x ≡ false → x ≡ y
unfolding mapping_less
mapping_less_total x y h k = ground (
  arith,
  text_eq_iff x.protocol y.protocol,
  text_eq_iff y.protocol x.protocol,
  text_lt_total x.protocol y.protocol,
  text_lt_total x.host_port y.host_port,
)
