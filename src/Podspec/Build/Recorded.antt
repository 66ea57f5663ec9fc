-- ===== src/Podspec/Build/Recorded.antt =====
-- internal/podspec/spec.go: what the annotations of a built pod record of the request.
use docker_in_kubernetes.Prelude.{
  zero, suc, false, Option, none, some, List, [], ◌∷◌, ◌≡◌, refl, ◌∙◌, Text, text, text_eq, Dict,
  lookup, insert, lookup-insert, lookup-insert_self, ℤ, pos, negsuc, arith,
}
use docker_in_kubernetes.Podspec.Codec.{Codec}
use docker_in_kubernetes.Podspec.Identity.{
  annotation_created_at, annotation_image, annotation_ports, annotation_env, annotation_docker_name,
  annotation_labels, annotation_user, annotation_memory, annotation_nano_cpus,
}
use docker_in_kubernetes.Podspec.Build.{
  BuildInput, put_list, put_text, put_positive, build_annotations,
}
use docker_in_kubernetes.Podspec.Ports.{PortMapping}
use docker_in_kubernetes.Podspec.User.{positive}

module _ (k key : Text) (apart : text_eq key k ≡ false) (out : Dict Text) where
  insert_other : (v : Text) → lookup k (insert key v out) ≡ lookup k out
  insert_other v = ground (arith, lookup-insert key k v out)

  put_list_other {ℓ} :
      {A : Type ℓ} (marshal : List A → Text) (items : List A)
      → lookup k (put_list marshal key items out) ≡ lookup k out
  unfolding put_list
  put_list_other marshal [] = refl
  put_list_other marshal (a ∷ rest) = insert_other (marshal (a ∷ rest))

  put_text_other : (t : Text) → lookup k (put_text key t out) ≡ lookup k out
  unfolding put_text
  put_text_other [] = refl
  put_text_other (c ∷ cs) = insert_other (c ∷ cs)

  put_positive_other : (z : ℤ) → lookup k (put_positive key z out) ≡ lookup k out
  unfolding put_positive positive
  put_positive_other (pos zero) = refl
  put_positive_other (pos (suc n)) = insert_other _
  put_positive_other (negsuc n) = refl

-- What a list is recorded as: nothing, or its encoding.
abbrev pub recorded_list {ℓ} : {A : Type ℓ} → (List A → Text) → List A → Option Text
recorded_list marshal [] = none
recorded_list marshal (a ∷ rest) = some (marshal (a ∷ rest))

put_list_self {ℓ} :
    {A : Type ℓ} (marshal : List A → Text) (key : Text) (items : List A) (out : Dict Text)
    → lookup key out ≡ none
    → lookup key (put_list marshal key items out) ≡ recorded_list marshal items
unfolding put_list
put_list_self marshal key [] out absent = absent
put_list_self marshal key (a ∷ rest) out absent = lookup-insert_self key (marshal (a ∷ rest)) out

module _ (codec : Codec) (input : BuildInput) (ports : List PortMapping) where
  -- The annotations but those of the lists.
  build_annotations_tail :
      (k : Text)
      → text_eq annotation_nano_cpus k ≡ false
      → text_eq annotation_memory k ≡ false
      → text_eq annotation_user k ≡ false
      → lookup k (build_annotations codec input ports)
        ≡ lookup k (
            put_list codec.marshal_labels annotation_labels input.request.labels (
              put_list codec.marshal_env annotation_env input.request.env (
                put_list codec.marshal_ports annotation_ports ports (
                  insert annotation_docker_name input.docker_name (
                    insert annotation_image input.request.image
                      (insert annotation_created_at (codec.format_time input.now) []))))))
  unfolding build_annotations
  build_annotations_tail k a b c =
      put_positive_other k annotation_nano_cpus a _ input.request.host_config.nano_cpus
      ∙ put_positive_other k annotation_memory b _ input.request.host_config.memory
      ∙ put_text_other k annotation_user c _ input.request.user

  recorded_labels :
      lookup annotation_labels (build_annotations codec input ports)
      ≡ recorded_list codec.marshal_labels input.request.labels
  unfolding text_eq text lookup insert
  recorded_labels =
      build_annotations_tail annotation_labels refl refl refl
      ∙ put_list_self codec.marshal_labels annotation_labels input.request.labels _ (
          put_list_other annotation_labels annotation_env refl _ codec.marshal_env input.request.env
          ∙ put_list_other annotation_labels annotation_ports refl _ codec.marshal_ports ports)

  recorded_env :
      lookup annotation_env (build_annotations codec input ports)
      ≡ recorded_list codec.marshal_env input.request.env
  unfolding text_eq text lookup insert
  recorded_env =
      build_annotations_tail annotation_env refl refl refl
      ∙ put_list_other annotation_env annotation_labels refl _ codec.marshal_labels
          input.request.labels
      ∙ put_list_self codec.marshal_env annotation_env input.request.env _
          (put_list_other annotation_env annotation_ports refl _ codec.marshal_ports ports)

  recorded_ports :
      lookup annotation_ports (build_annotations codec input ports)
      ≡ recorded_list codec.marshal_ports ports
  unfolding text_eq text lookup insert
  recorded_ports =
      build_annotations_tail annotation_ports refl refl refl
      ∙ put_list_other annotation_ports annotation_labels refl _ codec.marshal_labels
          input.request.labels
      ∙ put_list_other annotation_ports annotation_env refl _ codec.marshal_env input.request.env
      ∙ put_list_self codec.marshal_ports annotation_ports ports _ refl

  -- What stands under a key that no list is recorded under.
  recorded_plain :
      (k : Text)
      → text_eq annotation_nano_cpus k ≡ false
      → text_eq annotation_memory k ≡ false
      → text_eq annotation_user k ≡ false
      → text_eq annotation_labels k ≡ false
      → text_eq annotation_env k ≡ false
      → text_eq annotation_ports k ≡ false
      → lookup k (build_annotations codec input ports)
        ≡ lookup k (
            insert annotation_docker_name input.docker_name (
              insert annotation_image input.request.image
                (insert annotation_created_at (codec.format_time input.now) [])))
  recorded_plain k a b c d e f =
      build_annotations_tail k a b c
      ∙ put_list_other k annotation_labels d _ codec.marshal_labels input.request.labels
      ∙ put_list_other k annotation_env e _ codec.marshal_env input.request.env
      ∙ put_list_other k annotation_ports f _ codec.marshal_ports ports

  -- The annotations record the image, the --name, the instant, the labels, the environment and the
  -- ports: each list by its encoding, or not at all when it is empty.
  pub build_annotations_lem :
      (lookup annotation_image (build_annotations codec input ports) ≡ some input.request.image)
      × (lookup annotation_docker_name (build_annotations codec input ports)
          ≡ some input.docker_name)
      × (lookup annotation_created_at (build_annotations codec input ports)
          ≡ some (codec.format_time input.now))
      × (lookup annotation_labels (build_annotations codec input ports)
          ≡ recorded_list codec.marshal_labels input.request.labels)
      × (lookup annotation_env (build_annotations codec input ports)
          ≡ recorded_list codec.marshal_env input.request.env)
      × (lookup annotation_ports (build_annotations codec input ports)
          ≡ recorded_list codec.marshal_ports ports)
  unfolding text_eq text lookup insert
  build_annotations_lem = (
    recorded_plain annotation_image refl refl refl refl refl refl,
    recorded_plain annotation_docker_name refl refl refl refl refl refl,
    recorded_plain annotation_created_at refl refl refl refl refl refl,
    recorded_labels,
    recorded_env,
    recorded_ports,
  )
