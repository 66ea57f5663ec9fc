-- ===== src/Server/Exec/Lifecycle.antt =====
-- internal/server/exec.go: what inspect shows of an exec through its life.
use docker_in_kubernetes.Pod.{Pod}
