-- ===== src/Daemons.antt =====
-- practice/internal/controller/daemonset_controller.go: DeployPodOnNewNode for each registry pod, all
-- started at once.
pub mod Code
pub mod Alone
pub mod Announced
pub mod Ends
use checkpoint_operator.Base.{ℕ, List, [], ◌∷◌, Option, none, some, Bool, true, All, map, ◌≡◌}
use checkpoint_operator.Outcome.{Error, Outcome, ok, err}
use checkpoint_operator.Cluster.{Env, Pod, Trace, list_pods}
use checkpoint_operator.Util.Globals.{PodsMap}
use checkpoint_operator.RegistryIp.{registry_pods}
use checkpoint_operator.Threads.{Prog}
use checkpoint_operator.Threads.Pool.{Reach, Alive, has_ended}
use Code.{deploy_pod_on_new_node}

-- ctrl.Result, in milliseconds, with the error.
pub record Requeue : Type 0 where
  pub after : ℕ
  pub error : Option Error

-- One goroutine for each registry pod.
abbrev pub goroutines : Env → List Pod → List (Prog PodsMap (Unit {0}))
goroutines env pods = map (deploy_pod_on_new_node env) pods

-- Reconcile returns, with these variables and calls then. It waits for the goroutines; their errors
-- are only logged. A panic in one of them ends the process, so that Reconcile does not return.
pub data Reconciles (env : Env) (s : PodsMap) (t : Trace) : Requeue → PodsMap → Trace → Type 0 where
  unlisted :
      (e : Error)
      → env.list_pods t registry_pods ≡ err e
      → Reconciles env s t
          (record { after = 500000; error = some e })
          s
          (list_pods registry_pods ∷ t)
  waited :
      (pods : List Pod) {ps : List (Prog PodsMap (Unit {0}))} {s' : PodsMap} {t' : Trace}
      → env.list_pods t registry_pods ≡ ok pods
      → Reach (goroutines env pods) s (list_pods registry_pods ∷ t) ps s' t'
      → All (λ p. has_ended p ≡ true) ps
      → Alive ps
      → Reconciles env s t (record { after = 500; error = none }) s' t'
