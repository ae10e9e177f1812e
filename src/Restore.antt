-- ===== src/Restore.antt =====
-- practice/handlers/restore: the daemon that deletes the old pod once its successor is announced.
pub mod Deletes
pub mod Justified
pub mod OldName
use checkpoint_operator.Base.{
  ℕ, zero, suc, [], ◌∷◌, ◌++◌, Option, none, some, Bool, true, false, ◌||◌, Bytes, codes, is_empty,
  index, drop, ◌=s◌, if◌then◌else◌,
}
use checkpoint_operator.Outcome.{Error, Outcome, ok, err, panic}
use checkpoint_operator.Cluster.{Env, Pod, get_pod, delete_pod}
use checkpoint_operator.Proc.{Proc, call, return, give, attempt, on_error, ◌>>=◌, ◌>>◌}
use checkpoint_operator.Util.Clientset.{create_client_set, through}
use checkpoint_operator.Util.ImageCheck.{has_text}
use checkpoint_operator.Kafka.{Notice, consume_notice}

abbrev pub pod_not_found : Bytes → Bytes
pod_not_found name = codes "pods \"" ++ name ++ codes "\" not found"

from_index : Bytes → Option ℕ → Bytes
from_index s none = s
from_index s (some i) = drop (suc i) s

-- `s[strings.Index(s, "-")+1:]`
unfoldable pub after_dash : Bytes → Bytes
unfolding from_index
after_dash s = from_index s (index s b'-')

module _ (env : Env) {S : Type 0} where
  -- DeleteOldPod. The error of CreateClientSet is only logged, and so is that of Delete.
  unfoldable pub delete_old_pod : Bytes → Bytes → Proc S Bool
  delete_old_pod namespace name = do
    client ← attempt (create_client_set env)
    through client (
        on_error (call (get_pod namespace name) (λ t. env.get_pod t namespace name))
          (λ e. return (has_text e (pod_not_found name)))
          (λ _.
            on_error (call (delete_pod namespace name) (λ t. env.delete_pod t namespace name))
              (λ _. return true) (λ _. return true)))

  -- AliveCheck. The pod that Get returns with an error is empty, so its phase is. No other part of
  -- the daemon calls this function.
  unfoldable pub alive_check : Bytes → Bytes → Proc S (Bool × Bytes)
  alive_check namespace name = do
    client ← attempt (create_client_set env)
    phase ← through client (
        on_error (call (get_pod namespace name) (λ t. env.get_pod t namespace name))
          (λ _. return []) (λ pod. return pod.phase))
    return (if phase =s codes "Running" then (true, codes "Running") else (false, phase))

  unfoldable pub handle_notice : Notice → Proc S (Unit {0})
  handle_notice n =
      if is_empty n.pod || is_empty n.namespace || is_empty n.node
      then return tt
      else (delete_old_pod n.namespace (after_dash n.pod) >> return tt)

  -- One round of the loop of main. An error of the consumer is only logged.
  unfoldable pub restore_round : Proc S (Unit {0})
  restore_round = do (notice, error) ← consume_notice env; handle_notice notice

  -- The loop of main, which has no end: so many of its rounds. A panic ends the process.
  unfoldable pub main : ℕ → Proc S (Unit {0})
  main zero = return tt
  main (suc rounds) = restore_round >> main rounds
