-- ===== src/K8s/Connect.antt =====
-- internal/k8s/client.go: the connection to the cluster. client-go's loading of a configuration and its
-- clientset are parameters; C is the type of clientsets and R that of REST configurations.
use docker_in_kubernetes.Prelude.{Bool, true, false, Option, none, some, [], ◌∷◌, ◌++◌, Text, text}
use docker_in_kubernetes.Podspec.Ports.{Result, ok, err}

pub data Mode : Type 0 where
  local in_cluster : Mode

unfoldable pub mode_text : Mode → Text
mode_text in_cluster = text "in-cluster"
mode_text local = text "local"

pub record ClientConfig : Type 0 where
  pub kubeconfig_path : Text
  pub context : Text

pub record Connection (C R : Type 0) : Type 0 where
  pub clientset : C
  pub rest : R
  pub mode : Mode

-- The value of KUBERNETES_SERVICE_HOST tells.
abbrev pub is_in_cluster : Text → Bool
is_in_cluster service_host = elim service_host [ [] ↦ false | c ∷ cs ↦ true ]

-- A field that is empty is not passed on.
abbrev pub given : Text → Option Text
given t = elim t [ [] ↦ none | c ∷ cs ↦ some (c ∷ cs) ]

module _ {C R : Type 0} (in_cluster_config : Result R) (load : Option Text → Option Text → Result R)
    (new_for_config : R → Result C) where
  unfoldable pub new_connection : Mode → R → Result (Connection C R)
  new_connection mode cfg = elim (new_for_config cfg) [
    | err e ↦ err (text "kubernetes clientset: " ++ e)
    | ok cs ↦ ok (record { clientset = cs; rest = cfg; mode = mode })
  ]

  unfoldable pub connect : Text → ClientConfig → Result (Connection C R)
  unfolding new_connection
  connect service_host cfg = elim (is_in_cluster service_host) [
    | true ↦ elim in_cluster_config [
      | err e ↦ err (text "in-cluster config: " ++ e)
      | ok rest ↦ new_connection in_cluster rest
    ]
    | false ↦ elim (load (given cfg.kubeconfig_path) (given cfg.context)) [
      | err e ↦ err (text "load kubeconfig: " ++ e)
      | ok rest ↦ new_connection local rest
    ]
  ]
