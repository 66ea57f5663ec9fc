-- ===== src/Server/Containers/Waiting/Started.antt =====
-- internal/server/containers.go: a wait that was sent before the start, as docker run sends it.
use docker_in_kubernetes.Pod.{Pod}
