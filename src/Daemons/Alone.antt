-- ===== src/Daemons/Alone.antt =====
-- A goroutine that no other interrupts does what the sequential model says.
use checkpoint_operator.Base.{List, [], ◌∷◌, ◌++◌, Bytes, ◌=s◌, ◌≡◌}
use checkpoint_operator.Cluster.{
  Env, Pod, NewPod, Message, Feed, expired, deadline, failed, fetched, Trace,
}
use checkpoint_operator.Util.Globals.{PodsMap, MigrationInfo}
use checkpoint_operator.Util.Clientset
use checkpoint_operator.Kafka
use checkpoint_operator.Kafka.{is_blank}
use checkpoint_operator.Deploy
use checkpoint_operator.Threads.{run}
use checkpoint_operator.Threads.Refines.{
  Refines, Refines-atomic, Refines-bind, Refines-if, Refines-on_error, Refines-return,
  refines_rules,
}
use checkpoint_operator.Daemons.Code

module _ (env : Env) where
  create_client_set-Refines : Refines (Code.create_client_set env) (Clientset.create_client_set env)
  unfolding Code.create_client_set Clientset.create_client_set
  create_client_set-Refines = search refines_rules depth 12

  count_remaining-Refines :
      (node : Bytes) → Refines (Code.count_remaining env node) (Deploy.count_remaining env node)
  unfolding Code.count_remaining Deploy.count_remaining
  count_remaining-Refines node = search (refines_rules, create_client_set-Refines) depth 16

  create_new_pod-Refines :
      (p : NewPod) (namespace : Bytes)
      → Refines (Code.create_new_pod env p namespace) (Deploy.create_new_pod env p namespace)
  unfolding Code.create_new_pod Deploy.create_new_pod
  create_new_pod-Refines p namespace = search (refines_rules, create_client_set-Refines) depth 12

  namespace-Refines :
      (name : Bytes)
      → Refines
          (Code.check_destination_namespace_exists env name)
          (Deploy.check_destination_namespace_exists env name)
  unfolding Code.check_destination_namespace_exists Deploy.check_destination_namespace_exists
  namespace-Refines name = search (refines_rules, create_client_set-Refines) depth 12

  announce-Refines :
      (key namespace node : Bytes)
      → Refines
          (Code.produce_message_to_different_topics env key namespace node)
          (Kafka.produce_message_to_different_topics env key namespace node)
  unfolding Code.produce_message_to_different_topics Kafka.produce_message_to_different_topics
      Kafka.send
  announce-Refines key namespace node = Refines-atomic _

  launch-Refines :
      (p : NewPod) (info : MigrationInfo) (node : Bytes)
      → Refines (Code.launch env p info node) (Deploy.launch env p info node)
  unfolding Code.launch Deploy.launch
  launch-Refines p info node =
      search (refines_rules, create_new_pod-Refines, announce-Refines) depth 12

  deploy_from-Refines :
      (pod : Pod) (m : Message) (info : MigrationInfo)
      → Refines (Code.deploy_from env pod m info) (Deploy.deploy_from env pod m info)
  unfolding Code.deploy_from Deploy.deploy_from
  deploy_from-Refines pod m info =
      search (refines_rules, count_remaining-Refines, namespace-Refines, launch-Refines) depth 12

  deploy_message-Refines :
      (pod : Pod) (m : Message)
      → Refines (Code.deploy_message env pod m) (Deploy.deploy_message env pod m)
  unfolding Code.deploy_message Deploy.deploy_message
  deploy_message-Refines pod m = search (refines_rules, deploy_from-Refines) depth 12

consume_loop-Refines :
    (node : Bytes) (found : List Message) (feed : Feed)
    → Refines (Code.consume_loop node found feed) (Kafka.consume_loop node found feed)
unfolding Code.consume_loop Kafka.consume_loop
consume_loop-Refines node found expired = Refines-return _
consume_loop-Refines node found deadline = Refines-return _
consume_loop-Refines node found (failed rest) =
    Refines-bind _ _ _ _ (Refines-atomic _) (λ _. consume_loop-Refines node found rest)
consume_loop-Refines node found (fetched m committed rest) =
    let skip = consume_loop-Refines node found rest in
    let keep = consume_loop-Refines node (found ++ m ∷ []) rest in
    Refines-bind _ _ _ _ (Refines-atomic _) (λ _.
      Refines-if (is_blank m) _ _ _ _
        (Refines-on_error _ _ _ _ _ _ (Refines-atomic _) (λ _. skip) (λ _. skip))
        (Refines-if (m.key =s node) _ _ _ _
          (Refines-on_error _ _ _ _ _ _ (Refines-atomic _) (λ _. Refines-return _) (λ _. keep))
          skip))

module _ (env : Env) where
  consume_message-Refines :
      (node : Bytes) → Refines (Code.consume_message env node) (Kafka.consume_message env node)
  unfolding Code.consume_message Kafka.consume_message
  consume_message-Refines node = search (refines_rules, consume_loop-Refines) depth 8

  deploy_pod_on_new_node-Refines :
      (pod : Pod)
      → Refines (Code.deploy_pod_on_new_node env pod) (Deploy.deploy_pod_on_new_node env pod)
  unfolding Code.deploy_pod_on_new_node Deploy.deploy_pod_on_new_node
  deploy_pod_on_new_node-Refines pod =
      search (refines_rules, consume_message-Refines, deploy_message-Refines) depth 12

-- The steps of a goroutine, taken with no other between them, are a run of DeployPodOnNewNode: they
-- end with the same outcome, the same ProcessPodsMap and the same calls.
pub deploy_pod_on_new_node_alone :
    (env : Env) (pod : Pod) (s : PodsMap) (t : Trace)
    → run (Code.deploy_pod_on_new_node env pod) s t ≡ Deploy.deploy_pod_on_new_node env pod s t
deploy_pod_on_new_node_alone env pod s t = (deploy_pod_on_new_node-Refines env pod).at s t
