-- ===== src/Server/Summary/Shown.antt =====
-- internal/server/summary.go: a container that was created is shown as the request asked for it.
use docker_in_kubernetes.Prelude.{
  ◌⊎◌, ℕ, ◌*◌, ◌/◌, some, List, [], ◌∷◌, ◌≡◌, refl, ap, ◌∙◌, inl, inr, arith, Text, text, Dict,
  lookup, Text-cases,
}
use docker_in_kubernetes.Pod.{Pod, Container, Phase, value_of}
use docker_in_kubernetes.Podspec.Codec.{Codec, IsCodec}
use docker_in_kubernetes.Podspec.Identity.{
  annotation_image, annotation_ports, annotation_labels, annotation_created_at,
}
use docker_in_kubernetes.Podspec.Build.{
  BuildInput, BuildResult, build, build_pod, build_container, build_annotations,
}
use docker_in_kubernetes.Podspec.Build.Recorded.{build_annotations_lem, recorded_list}
use docker_in_kubernetes.Podspec.Build.Shape.{build-shape}
use docker_in_kubernetes.Podspec.Ports.{PortMapping, ok}
use docker_in_kubernetes.Server.Containers.{load_mappings_from_pod}
use docker_in_kubernetes.Server.Summary.{
  created, termination_of, build_summary, parse_ports, pod_image, user_labels_from_pod,
  creation_time, unix, docker_state_from_phase, status,
}

value_of_lem : (k v : Text) (m : Dict Text) → lookup k m ≡ some v → value_of k m ≡ v
unfolding value_of
value_of_lem k v m h = ground (arith, h)

image_read :
    (pod : Pod) (c : Container) (image : Text)
    → lookup annotation_image pod.annotations ≡ some image
    → pod.containers ≡ c ∷ []
    → c.image ≡ image
    → pod_image pod ≡ image
unfolding pod_image value_of
image_read pod c [] h k l = ground (arith, h, k, l)
image_read pod c (d ∷ image) h k l = ground (arith, h)

module _ (codec : Codec) (laws : IsCodec codec) where
  -- The ports that were recorded are read again.
  ports_read :
      (ports : List PortMapping) (pod : Pod)
      → lookup annotation_ports pod.annotations ≡ recorded_list codec.marshal_ports ports
      → (parse_ports codec pod ≡ ports) × (load_mappings_from_pod codec pod ≡ ok ports)
  unfolding parse_ports load_mappings_from_pod value_of
  ports_read [] pod h = (ground (arith, h), ground (arith, h))
  ports_read (p ∷ ports) pod h = elim (Text-cases (codec.marshal_ports (p ∷ ports))) [
    | inl e ↦ elim (laws.ports_ne (p ∷ ports) e) [ ]
    | inr (c, cs, e) ↦
        (ground (arith, h, e, laws.ports (p ∷ ports)), ground (arith, h, e, laws.ports (p ∷ ports)))
  ]

  -- So are the labels, if there are any.
  labels_read :
      (labels : Dict Text) (pod : Pod)
      → lookup annotation_labels pod.annotations ≡ recorded_list codec.marshal_labels labels
      → (labels ≡ []) ⊎ ((k : Text) → lookup k (user_labels_from_pod codec pod) ≡ lookup k labels)
  unfolding user_labels_from_pod value_of
  labels_read [] pod h = inl refl
  labels_read (l ∷ labels) pod h =
      let (m, back, same) = laws.labels (l ∷ labels) in
      elim (Text-cases (codec.marshal_labels (l ∷ labels))) [
        | inl e ↦ elim (laws.labels_ne (l ∷ labels) e) [ ]
        | inr (c, cs, e) ↦
            let read : user_labels_from_pod codec pod ≡ m = ground (arith, h, e, back) in
            inr (λ k. ap (λ x. lookup k x) read ∙ same k)
      ]

  time_read :
      (t : ℕ) (pod : Pod)
      → lookup annotation_created_at pod.annotations ≡ some (codec.format_time t)
      → pod.creation_timestamp ≡ 0
      → creation_time codec pod ≡ t / 1000000000 * 1000000000
  unfolding creation_time value_of
  time_read t pod h zero' = elim (Text-cases (codec.format_time t)) [
    | inl e ↦ elim (laws.time_ne t e) [ ]
    | inr (c, cs, e) ↦ ground (arith, h, e, laws.time t, zero')
  ]

  -- A pod that Build made and that has no status yet is listed as created, with the image, the labels
  -- (if there are any) and, to the second, the instant of the request; and its ports are the mappings
  -- that Build returned.
  pub build-shown :
      (input : BuildInput) (r : BuildResult) (sha256_hex : Text → Text) (now : ℕ)
      → build codec input ≡ ok r
      → (parse_ports codec r.pod ≡ r.port_mappings)
        × (load_mappings_from_pod codec r.pod ≡ ok r.port_mappings)
        × ((build_summary codec sha256_hex now r.pod).image ≡ input.request.image)
        × ((build_summary codec sha256_hex now r.pod).state ≡ created)
        × ((build_summary codec sha256_hex now r.pod).status ≡ text "Created")
        × ((build_summary codec sha256_hex now r.pod).created
            ≡ unix (input.now / 1000000000 * 1000000000))
        × ((input.request.labels ≡ [])
            ⊎ ((k : Text)
                → lookup k (build_summary codec sha256_hex now r.pod).labels
                  ≡ lookup k input.request.labels))
  unfolding build_summary build_pod docker_state_from_phase status build_container
  build-shown input r sha256_hex now h =
      let (sc, shape, _, _, _) = build-shape codec input r h in
      let (image, _, time, labels, _, ports) = build_annotations_lem codec input r.port_mappings in
      let state : r.pod.status.phase ≡ Phase.other [] = ap (λ p. p.status.phase) shape in
      let at : (k : Text)
          → lookup k r.pod.annotations ≡ lookup k (build_annotations codec input r.port_mappings) =
        λ k. ap (λ p. lookup k p.annotations) shape in
      let (parsed, loaded) = ports_read r.port_mappings r.pod (at annotation_ports ∙ ports) in
      let created_at =
        time_read input.now r.pod (at annotation_created_at ∙ time)
          (ap (λ p. p.creation_timestamp) shape) in
      (
        parsed,
        loaded,
        image_read r.pod (build_container input r.pod_name r.port_mappings sc) input.request.image
            (at annotation_image ∙ image) (ap (λ p. p.containers) shape) refl,
        ap docker_state_from_phase state,
        ap (λ x. status x (creation_time codec r.pod) (termination_of r.pod) now)
            (ap docker_state_from_phase state),
        ap unix created_at,
        labels_read input.request.labels r.pod (at annotation_labels ∙ labels),
      )
