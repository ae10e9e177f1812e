-- ===== src/Util/Clientset.antt =====
-- practice/util/clientset.go, handlers/restore/k8sclient/client.go and testwebhook/k8sclient/client.go:
-- three copies of one function, and a fourth in api/v1alpha1/migration_webhook.go that wraps the error.
pub mod Reads
use checkpoint_operator.Base.{◌++◌, codes}
use checkpoint_operator.Outcome.{Outcome, ok, err, panic}
use checkpoint_operator.Cluster.{Env, in_cluster_config, build_config, new_clientset}
use checkpoint_operator.Proc.{Proc, call, return, panics, on_error, ◌>>◌}

-- A call through a clientset that may be nil, because its error was not looked at: the methods of a
-- nil clientset read a field of it, which is a panic.
unfoldable pub through : {S A : Type 0} → Outcome (Unit {0}) → Proc S A → Proc S A
through (ok _) m = m
through (err e) m = panics
through panic m = panics

module _ (env : Env) {S : Type 0} where
  -- Outside a cluster the file in the home directory is read, and a failure to read it is a panic.
  rest_config : Proc S (Unit {0})
  rest_config =
      on_error (call in_cluster_config env.in_cluster_config)
        (λ _.
          let path = env.home ++ codes "/.kube/config" in
          on_error (call (build_config path) (λ t. env.build_config t path)) (λ _. panics)
            (λ _. return tt))
        (λ _. return tt)

  unfoldable pub create_client_set : Proc S (Unit {0})
  unfolding rest_config
  create_client_set = rest_config >> call new_clientset env.new_clientset
