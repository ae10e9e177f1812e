-- ===== src/Pipeline/Views/Deployed.antt =====
-- The deployment of arrived images cannot tell two tables with the same entries apart.
use checkpoint_operator.Base.{List, [], ◌∷◌, ◌++◌, Bytes, ◌=s◌}
use checkpoint_operator.Cluster.{
  Env, Feed, expired, deadline, failed, fetched, Message, NewPod, Pod,
}
use checkpoint_operator.Proc.{gets, modify}
use checkpoint_operator.Proc.Respects.{
  Respects-gets, Respects-modify, Respects-return, Respects-bind, Respects-call, Respects-if,
  Respects-on_error, respects_rules,
}
use checkpoint_operator.Util.Globals.{MigrationInfo, lookup, remove}
use checkpoint_operator.Kafka.{
  is_blank, consume_loop, consume_message, send, produce_message_to_different_topics,
}
use checkpoint_operator.Deploy.{
  count_remaining, create_new_pod, check_destination_namespace_exists, launch, deploy_from,
  deploy_message, deploy_pod_on_new_node,
}
use checkpoint_operator.Pipeline.Views.{remove-SameView, Blind, client-Respects}

module _ (env : Env) where
  count_remaining-Respects : (node : Bytes) → Blind env (count_remaining env node)
  unfolding count_remaining
  count_remaining-Respects node = search (respects_rules, client-Respects) depth 16

  create_new_pod-Respects : (p : NewPod) (n : Bytes) → Blind env (create_new_pod env p n)
  unfolding create_new_pod
  create_new_pod-Respects p n = search (respects_rules, client-Respects) depth 12

  namespace-Respects : (n : Bytes) → Blind env (check_destination_namespace_exists env n)
  unfolding check_destination_namespace_exists
  namespace-Respects n = search (respects_rules, client-Respects) depth 12

  announce-Respects : (k n o : Bytes) → Blind env (produce_message_to_different_topics env k n o)
  unfolding produce_message_to_different_topics send
  announce-Respects k n o = search respects_rules

  launch-Respects :
      (p : NewPod) (info : MigrationInfo) (node : Bytes) → Blind env (launch env p info node)
  unfolding launch
  launch-Respects p info node =
      search (respects_rules, create_new_pod-Respects, announce-Respects) depth 12

  deploy_from-Respects :
      (pod : Pod) (m : Message) (info : MigrationInfo) → Blind env (deploy_from env pod m info)
  unfolding deploy_from
  deploy_from-Respects pod m info =
      search (respects_rules, count_remaining-Respects, namespace-Respects, launch-Respects) depth
        12

  lookup-Respects : (k : Bytes) → Blind env (gets (λ m. lookup k m))
  lookup-Respects k = Respects-gets _ (λ s s' h. h k)

  remove-Respects : (k : Bytes) → Blind env (modify (λ m. remove k m))
  remove-Respects k = Respects-modify _ (remove-SameView k)

  pub deploy_message-Respects : (pod : Pod) (m : Message) → Blind env (deploy_message env pod m)
  unfolding deploy_message
  deploy_message-Respects pod m =
      search (respects_rules, lookup-Respects, remove-Respects, deploy_from-Respects) depth 12

  loop-Respects :
      (node : Bytes) (found : List Message) (feed : Feed) → Blind env (consume_loop node found feed)
  unfolding consume_loop
  loop-Respects node found expired = Respects-return _
  loop-Respects node found deadline = Respects-return _
  loop-Respects node found (failed rest) =
      Respects-bind _ _ (Respects-call _ _) (λ _. loop-Respects node found rest)
  loop-Respects node found (fetched m committed rest) =
      let skip = loop-Respects node found rest in
      let keep = loop-Respects node (found ++ m ∷ []) rest in
      Respects-bind _ _ (Respects-call _ _) (λ _.
        Respects-if (is_blank m) _ _
          (λ _. Respects-on_error _ _ _ (Respects-call _ _) (λ _. skip) (λ _. skip))
          (λ _.
            Respects-if (m.key =s node) _ _
              (λ _.
                Respects-on_error _ _ _ (Respects-call _ _) (λ _. Respects-return _) (λ _. keep))
              (λ _. skip)))

  consume-Respects : (node : Bytes) → Blind env (consume_message env node)
  unfolding consume_message
  consume-Respects node = search (respects_rules, loop-Respects)

  pub deploy_pod_on_new_node-Respects : (pod : Pod) → Blind env (deploy_pod_on_new_node env pod)
  unfolding deploy_pod_on_new_node
  deploy_pod_on_new_node-Respects pod =
      search (respects_rules, consume-Respects, deploy_message-Respects) depth 8
