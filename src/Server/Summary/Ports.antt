-- ===== src/Server/Summary/Ports.antt =====
-- internal/server/summary.go: the ports that docker inspect shows.
use docker_in_kubernetes.Prelude.{
  some, List, [], ◌∷◌, ◌++◌, ◌≡◌, ◌≢◌, refl, ◌∙◌, Bool-cases, arith, Text, text_eq, text_eq_iff,
  Dict, lookup, insert, lookup-insert, lookup-insert_self, All,
}
use docker_in_kubernetes.Podspec.Ports.{PortMapping}
use docker_in_kubernetes.Server.Summary.{port_key, bindings_of, bindings_loop, ports_bindings}

bindings_loop_other :
    (k : Text) (out : Dict (List Text)) (ms : List PortMapping)
    → All (λ m. port_key m ≢ k) ms
    → lookup k (bindings_loop out ms) ≡ lookup k out
unfolding bindings_loop
bindings_loop_other k out [] h = refl
bindings_loop_other k out (m ∷ ms) (h, hs) =
    let next = insert (port_key m) (bindings_of m) out in
    bindings_loop_other k next ms hs
    ∙ ground (
      arith,
      lookup-insert (port_key m) k (bindings_of m) out,
      h,
      text_eq_iff (port_key m) k,
      Bool-cases (text_eq (port_key m) k),
    )

bindings_loop_last :
    (out : Dict (List Text)) (before after : List PortMapping) (m : PortMapping)
    → All (λ x. port_key x ≢ port_key m) after
    → lookup (port_key m) (bindings_loop out (before ++ m ∷ after)) ≡ some (bindings_of m)
unfolding bindings_loop
bindings_loop_last out [] after m h =
    bindings_loop_other (port_key m) (insert (port_key m) (bindings_of m) out) after h
    ∙ lookup-insert_self (port_key m) (bindings_of m) out
bindings_loop_last out (x ∷ before) after m h =
    bindings_loop_last (insert (port_key x) (bindings_of x) out) before after m h

-- For each container port and protocol inspect shows the binding of the last mapping with that port
-- and protocol, and so not those of the mappings before it.
pub ports_bindings_last :
    (before after : List PortMapping) (m : PortMapping)
    → All (λ x. port_key x ≢ port_key m) after
    → lookup (port_key m) (ports_bindings (before ++ m ∷ after)) ≡ some (bindings_of m)
unfolding ports_bindings
ports_bindings_last before after m h = bindings_loop_last [] before after m h
