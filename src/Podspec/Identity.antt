-- ===== src/Podspec/Identity.antt =====
-- internal/podspec/id.go and labels.go: container IDs, and the keys of labels and annotations.
-- `sha256_hex` stands for the 64 hex digits of crypto/sha256.
use docker_in_kubernetes.Prelude.{◌∷◌, ◌++◌, Text, text, leb, if◌then◌else◌, length, take}

unfoldable pub container_id : (Text → Text) → Text → Text → Text
container_id sha256_hex namespace name = sha256_hex (namespace ++ b'/' ∷ name)

unfoldable pub short_id : Text → Text
short_id id = if leb (length id) 12 then id else take 12 id

abbrev pub label_managed : Text
label_managed = text "docker-in-kubernetes.io/managed"

abbrev pub label_container_name : Text
label_container_name = text "docker-in-kubernetes.io/container-name"

abbrev pub label_project : Text
label_project = text "docker-in-kubernetes.io/project"

abbrev pub annotation_created_at : Text
annotation_created_at = text "docker-in-kubernetes.io/created-at"

abbrev pub annotation_image : Text
annotation_image = text "docker-in-kubernetes.io/image"

abbrev pub annotation_ports : Text
annotation_ports = text "docker-in-kubernetes.io/ports"

abbrev pub annotation_env : Text
annotation_env = text "docker-in-kubernetes.io/env"

abbrev pub annotation_docker_name : Text
annotation_docker_name = text "docker-in-kubernetes.io/docker-name"

abbrev pub annotation_labels : Text
annotation_labels = text "docker-in-kubernetes.io/labels"

abbrev pub annotation_user : Text
annotation_user = text "docker-in-kubernetes.io/user"

abbrev pub annotation_memory : Text
annotation_memory = text "docker-in-kubernetes.io/memory"

abbrev pub annotation_nano_cpus : Text
annotation_nano_cpus = text "docker-in-kubernetes.io/nano-cpus"

abbrev pub default_project : Text
default_project = text "default"
