-- ===== src/Podspec/Name/Generated.antt =====
-- The names that are made up when a container is created without one (internal/podspec/name.go).
use mathlib.Core.Path.{subst}
use mathlib.Core.List.{reverse-append, reverse-cons}
use docker_in_kubernetes.Prelude.{
  ℕ, zero, suc, ◌≤◌, ◌<◌, ◌≡◌, ◌≢◌, refl, ap, ◌∙◌, inl, inr, true, List, [], ◌∷◌, ◌++◌, reverse,
  Text, text, arith, length, length-append, take, All, All-append, All-imp, Option-cases, lt→ltb,
  take_of_length-le,
}
use docker_in_kubernetes.Podspec.Name.{
  is_alnum, sanitize_name, image_base, generated_stem, generated_name,
}
use docker_in_kubernetes.Podspec.Name.Trim.{IsNameChar, StartsAlnum, IsLabel}
use docker_in_kubernetes.Podspec.Name.Sane.{sanitize_name-IsLabel}

dink-IsLabel : IsLabel (text "dink")
unfolding text is_alnum
dink-IsLabel = record {
  chars = (inl refl, (inl refl, (inl refl, (inl refl, tt))));
  first = refl;
  last = refl;
  short = omega arith;
}

prefix-ne-nil : (s : Text) → text "dink-" ++ s ≢ []
unfolding text
prefix-ne-nil s e = cc

pub generated_stem-IsLabel : (image : Text) → IsLabel (generated_stem image)
unfolding generated_stem
generated_stem-IsLabel image =
    elim (Option-cases (sanitize_name [] (text "dink-" ++ image_base image))) [
      | inl failed ↦ rw (failed, generated_stem) dink-IsLabel
      | inr (clean, done) ↦
          rw (done, generated_stem)
            (sanitize_name-IsLabel [] (text "dink-" ++ image_base image) clean
              (prefix-ne-nil (image_base image)) done)
    ]

take_within {ℓ} :
    {A : Type ℓ} (n : ℕ) (xs ys : List A) → n ≤ length xs → take n (xs ++ ys) ≡ take n xs
take_within zero xs ys h = refl
take_within (suc n) [] ys h = absurd (omega arith)
take_within (suc n) (x ∷ xs) ys h = rw (take_within n xs ys (omega arith))

take_one_more {ℓ} :
    {A : Type ℓ} (xs : List A) (y : A) (ys : List A)
    → take (suc (length xs)) (xs ++ y ∷ ys) ≡ xs ++ y ∷ []
take_one_more [] y ys = refl
take_one_more (x ∷ xs) y ys = rw (take_one_more xs y ys)

StartsAlnum-append : (s t : Text) → StartsAlnum s → StartsAlnum (s ++ t)
StartsAlnum-append [] t h = absurd h
StartsAlnum-append (c ∷ s) t h = h

reverse-StartsAlnum : (s : Text) → All (λ c. is_alnum c ≡ true) s → s ≢ [] → StartsAlnum (reverse s)
reverse-StartsAlnum [] h ne = absurd (ne refl)
reverse-StartsAlnum (c ∷ []) h ne = h.0
reverse-StartsAlnum (c ∷ d ∷ s) h ne =
    rw (reverse-cons c (d ∷ s))
      (StartsAlnum-append (reverse (d ∷ s)) (c ∷ []) (reverse-StartsAlnum (d ∷ s) h.1 (λ e. cc)))

length-pos : (s : Text) → s ≢ [] → 0 < length s
length-pos [] ne = absurd (ne refl)
length-pos (c ∷ s) ne = omega arith

dash-not-last : (s : Text) → ¬ IsLabel (s ++ b'-' ∷ [])
unfolding is_alnum
dash-not-last s label = cc (subst StartsAlnum (reverse-append s (b'-' ∷ [])) label.last)

module _ (image suffix : Text) where
  -- With a stem of at most 56 characters and six random letters or digits, the generated name is a
  -- label by RFC 1123 that ends with the whole suffix.
  pub generated_name-IsLabel :
      length (generated_stem image) ≤ 56
      → length suffix ≡ 6
      → All (λ c. is_alnum c ≡ true) suffix
      → (generated_name image suffix ≡ generated_stem image ++ b'-' ∷ suffix)
        × IsLabel (generated_name image suffix)
  generated_name-IsLabel short six hex = (
    whole,
    rw whole (record {
      chars =
          All-append IsNameChar stem (b'-' ∷ suffix) label.chars
            (inr refl, All-imp (λ c h. inl h) suffix hex);
      first = StartsAlnum-append stem (b'-' ∷ suffix) label.first;
      last =
          rw (reverse-append stem (b'-' ∷ suffix), reverse-cons b'-' suffix)
            (StartsAlnum-append _ (reverse stem) (
              StartsAlnum-append (reverse suffix) (b'-' ∷ [])
                (reverse-StartsAlnum suffix hex suffix-ne-nil)));
      short = omega (arith, length-append stem (b'-' ∷ suffix));
    }),
  )
    where
      stem : Text
      stem = generated_stem image

      label : IsLabel (generated_stem image)
      label = generated_stem-IsLabel image

      whole : generated_name image suffix ≡ generated_stem image ++ b'-' ∷ suffix
      whole =
          unfold generated_name in
          ground (arith, length-append (generated_stem image) (b'-' ∷ suffix))

      suffix-ne-nil : suffix ≢ []
      suffix-ne-nil e = absurd (omega (arith, ap length e))

  -- With a stem of 62 characters the name ends with a dash, and is no label.
  pub generated_name_dash :
      length (generated_stem image) ≡ 62
      → suffix ≢ []
      → (generated_name image suffix ≡ generated_stem image ++ b'-' ∷ [])
        × ¬ IsLabel (generated_name image suffix)
  generated_name_dash long ne =
      (cut_off, λ label. dash-not-last (generated_stem image) (subst IsLabel cut_off label))
    where
      over : 63 < length (generated_stem image ++ b'-' ∷ suffix)
      over =
          omega (arith, length-append (generated_stem image) (b'-' ∷ suffix), length-pos suffix ne)

      cut_off : generated_name image suffix ≡ generated_stem image ++ b'-' ∷ []
      cut_off =
          unfold generated_name in
          rw (lt→ltb 63 (length (generated_stem image ++ b'-' ∷ suffix)) over) (
            ap (λ n. take n (generated_stem image ++ b'-' ∷ suffix)) sixty_three
            ∙ take_one_more (generated_stem image) b'-' suffix)
        where
          sixty_three : 63 ≡ suc (length (generated_stem image))
          sixty_three = omega arith

  -- With a stem of 63 characters the random suffix is cut off: every suffix gives the same name.
  pub generated_name_clash :
      length (generated_stem image) ≡ 63 → generated_name image suffix ≡ generated_stem image
  generated_name_clash long =
      unfold generated_name in
      rw (lt→ltb 63 (length (generated_stem image ++ b'-' ∷ suffix)) over) (
        take_within 63 (generated_stem image) (b'-' ∷ suffix) (omega arith)
        ∙ take_of_length-le 63 (generated_stem image) (omega arith))
    where
      over : 63 < length (generated_stem image ++ b'-' ∷ suffix)
      over = omega (arith, length-append (generated_stem image) (b'-' ∷ suffix))
