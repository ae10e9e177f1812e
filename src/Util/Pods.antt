-- ===== src/Util/Pods.antt =====
-- practice/util/pod.go: a pod of the default namespace is deleted, or waited for.
mod Waited
use checkpoint_operator.Base.{ℕ, zero, suc, [], ◌∷◌, Bytes, codes, ◌=s◌, if◌then◌else◌}
use checkpoint_operator.Outcome.{wrapped, errorf, ok}
use checkpoint_operator.Cluster.{Env, delete_pod, get_pod}
use checkpoint_operator.Proc.{Proc, call, return, fail, or_fail, on_error, ◌>>=◌, ◌>>◌}
use checkpoint_operator.Util.Clientset.{create_client_set}

abbrev default : Bytes
default = codes "default"

module _ (env : Env) {S : Type 0} where
  -- DeletePod
  unfoldable pub delete_default_pod : Bytes → Proc S (Unit {0})
  delete_default_pod name = do
    or_fail (create_client_set env) (λ e. wrapped "unable to create clientset" e)
    or_fail (call (delete_pod default name) (λ t. env.delete_pod t default name))
        (λ e. wrapped "unable to delete pod" e)

  -- The loop of CheckPodStatus, which the clock lets make so many rounds.
  unfoldable pub wait_for : Bytes → Bytes → ℕ → Proc S (Unit {0})
  wait_for name state zero = fail (errorf "pod is not in running state within 30 seconds" [])
  wait_for name state (suc rounds) = do
    pod ←
        or_fail (call (get_pod default name) (λ t. env.get_pod t default name))
          (λ e. wrapped "unable to get pod" e)
    let again = wait_for name state rounds
    if pod.phase =s state then return tt else again

  unfoldable pub check_pod_status : Bytes → Bytes → ℕ → Proc S (Unit {0})
  check_pod_status name state rounds = do
    or_fail (create_client_set env) (λ e. wrapped "unable to create clientset" e)
    wait_for name state rounds
