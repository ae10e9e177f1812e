-- ===== src/Deploy/Invariants.antt =====
-- What every call and the removal of an entry keep is kept by a deployment.
use checkpoint_operator.Base.{◌∷◌, Bytes}
use checkpoint_operator.Outcome.{Outcome}
use checkpoint_operator.Cluster.{Env, Call, Pod, NewPod, Message, Trace}
use checkpoint_operator.Proc.{call}
use checkpoint_operator.Proc.Keeps.{Keeps, Keeps-call, Keeps-modify, keeps_rules}
use checkpoint_operator.Util.Globals.{PodsMap, MigrationInfo, remove}
use checkpoint_operator.Util.Clientset.{create_client_set}
use checkpoint_operator.Kafka.{produce_message_to_different_topics, send, consume_message}
use checkpoint_operator.Kafka.Commits.{consume_message-Keeps}
use checkpoint_operator.Deploy.{
  count_remaining, create_new_pod, check_destination_namespace_exists, launch, deploy_from,
  deploy_message, deploy_pod_on_new_node,
}

module _ {P : PodsMap → Trace → Type 0} (env : Env)
    (calls : (c : Call) (s : PodsMap) (t : Trace) → P s t → P s (c ∷ t))
    (removes : (k : Bytes) (s : PodsMap) (t : Trace) → P s t → P (remove k s) t) where
  call-P : {A : Type 0} (c : Call) (f : Trace → Outcome A) → Keeps P (call c f)
  call-P c f = Keeps-call c f (calls c)

  client-P : Keeps P (create_client_set env)
  unfolding create_client_set
  client-P = search (keeps_rules, call-P) depth 8

  create-P : (p : NewPod) (n : Bytes) → Keeps P (create_new_pod env p n)
  unfolding create_new_pod
  create-P p n = search (keeps_rules, call-P, client-P) depth 8

  namespace-P : (n : Bytes) → Keeps P (check_destination_namespace_exists env n)
  unfolding check_destination_namespace_exists
  namespace-P n = search (keeps_rules, call-P, client-P) depth 8

  count-P : (n : Bytes) → Keeps P (count_remaining env n)
  unfolding count_remaining
  count-P n = search (keeps_rules, call-P, client-P) depth 12

  produce-P : (k n d : Bytes) → Keeps P (produce_message_to_different_topics env k n d)
  unfolding produce_message_to_different_topics send
  produce-P k n d = search (keeps_rules, call-P) depth 8

  launch-P : (p : NewPod) (info : MigrationInfo) (node : Bytes) → Keeps P (launch env p info node)
  unfolding launch
  launch-P p info node = search (keeps_rules, create-P, produce-P) depth 8

  deploy_from-P :
      (pod : Pod) (m : Message) (info : MigrationInfo) → Keeps P (deploy_from env pod m info)
  unfolding deploy_from
  deploy_from-P pod m info = search (keeps_rules, launch-P, namespace-P, count-P) depth 8

  message-P : (pod : Pod) (m : Message) → Keeps P (deploy_message env pod m)
  unfolding deploy_message
  message-P pod m = search (keeps_rules, Keeps-modify, deploy_from-P) depth 8

  consume-P : (node : Bytes) → Keeps P (consume_message env node)
  consume-P node =
      consume_message-Keeps {P = P} (λ s t h. calls _ s t h) (λ m s t p h. calls _ s t h) env

  pub deploy_pod_on_new_node-Keeps : (pod : Pod) → Keeps P (deploy_pod_on_new_node env pod)
  unfolding deploy_pod_on_new_node
  deploy_pod_on_new_node-Keeps pod = search (keeps_rules, consume-P, message-P) depth 8
