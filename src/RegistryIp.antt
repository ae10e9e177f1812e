-- ===== src/RegistryIp.antt =====
-- practice/handlers/registry.go: the address of the registry pod on a node.
pub mod Pick
use checkpoint_operator.Base.{List, [], ◌∷◌, Bytes, codes, ◌=s◌, if◌then◌else◌}
use checkpoint_operator.Cluster.{Env, Pod, Query, by_selector, list_pods}
use checkpoint_operator.Proc.{Proc, call, return, ◌>>=◌}
use checkpoint_operator.Util.ImageCheck.{docker_registry}

-- The loop assigns each pod to the variable that is read after it, and breaks at the node's.
-- `ip` is the address in that variable.
unfoldable pub pick_registry : Bytes → Bytes → List Pod → Bytes
pick_registry node ip [] = ip
pick_registry node ip (p ∷ ps) =
    if p.node_name =s node then p.pod_ip else pick_registry node p.pod_ip ps

abbrev pub registry_pods : Query
registry_pods = by_selector docker_registry (codes "app=docker-registry")

unfoldable pub return_registry_ip : Env → {S : Type 0} → Bytes → Proc S Bytes
return_registry_ip env node = do
  pods ← call (list_pods registry_pods) (λ t. env.list_pods t registry_pods)
  return (pick_registry node [] pods)
