-- ===== src/Monitor/Init.antt =====
-- init of practice/internal/controller/nodemonitor_controller.go: the clients that the package keeps.
use checkpoint_operator.Base.{Bool, true}
use checkpoint_operator.Cluster.{Env, in_cluster_config, new_clientset}
use checkpoint_operator.Proc.{Proc, call, modify, return, on_error, ◌>>◌}

-- Which of `kubeconfig` and `kubeClient` are not nil.
pub record Clients : Type 0 where
  pub kubeconfig : Bool
  pub kube_client : Bool

-- An error is only logged, and the variable stays nil.
unfoldable pub init : Env → Proc Clients (Unit {0})
init env = do
  on_error (call in_cluster_config env.in_cluster_config) (λ _. return tt)
      (λ _. modify (λ s. record s { kubeconfig = true }))
  on_error (call new_clientset env.new_clientset) (λ _. return tt)
      (λ _. modify (λ s. record s { kube_client = true }))
