-- ===== src/RegistryIp/Pick.antt =====
-- Which registry pod is picked.
use checkpoint_operator.Base.{List, [], ◌∷◌, Bool, Bytes, ◌=s◌, select, ◌≡◌, refl, arith, ap}
use checkpoint_operator.Outcome.{ok}
use checkpoint_operator.Cluster.{Env, Pod, Trace}
use checkpoint_operator.Proc.{◌>>=◌, continue}
use checkpoint_operator.RegistryIp.{pick_registry, registry_pods, return_registry_ip}

abbrev pub is_on : Bytes → Pod → Bool
is_on node p = p.node_name =s node

-- The address of the last of some pods, and of the first.
abbrev pub last_ip : Bytes → List Pod → Bytes
last_ip default [] = default
last_ip default (p ∷ ps) = last_ip p.pod_ip ps

abbrev pub first_ip : Bytes → List Pod → Bytes
first_ip default [] = default
first_ip default (p ∷ ps) = p.pod_ip

pub pick_registry-eq :
    (node ip : Bytes) (pods : List Pod)
    → pick_registry node ip pods ≡ first_ip (last_ip ip pods) (select (is_on node) pods)
unfolding pick_registry
pick_registry-eq node ip [] = refl
pick_registry-eq node ip (p ∷ ps) = ground (arith, pick_registry-eq node p.pod_ip ps)

-- Where the registry pods can be listed, the function returns the address of the first one on the
-- node; if there is none there, it reports no error but returns the address of the last registry
-- pod of all, or an empty text.
pub return_registry_ip-eq :
    (env : Env) {S : Type 0} (node : Bytes) (pods : List Pod) (s : S) (t : Trace)
    → env.list_pods t registry_pods ≡ ok pods
    → (return_registry_ip env node s t).outcome
      ≡ ok (first_ip (last_ip [] pods) (select (is_on node) pods))
unfolding return_registry_ip ◌>>=◌
return_registry_ip-eq env node pods s t e = rw (e, continue) (ap ok (pick_registry-eq node [] pods))
