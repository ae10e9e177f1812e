-- ===== src/Deploy/Dropped.antt =====
-- What becomes of the messages that were taken off the broker when the consumer ends with an error.
use checkpoint_operator.Base.{some, ◌≡◌, refl, select}
use checkpoint_operator.Outcome.{Error, err, wrapped}
use checkpoint_operator.Cluster.{Env, Pod, Trace}
use checkpoint_operator.Proc.{give, for_each, continue, ◌>>=◌}
use checkpoint_operator.Proc.Inversion.{bind_from}
use checkpoint_operator.Util.Globals.{PodsMap}
use checkpoint_operator.Kafka.{Batch, consume_message, my_topic}
use checkpoint_operator.Kafka.Consumed.{
  CommitsSucceed, is_for, offered, end_error, consume_message-eq,
}
use checkpoint_operator.Kafka.Commits.{consume_message-Keeps}
use checkpoint_operator.Deploy.{deploy_pod_on_new_node, messages_or_error, deploy_message}
use checkpoint_operator.Deploy.Entries.{Same}

-- Where every commit succeeds, but the consumer's loop ends by finding its context done, the run
-- returns that error, wrapped, leaves ProcessPodsMap as it is, and makes no call but the
-- consumer's own: the messages for its node that were committed before lead to no pod.
pub deploy_pod_on_new_node_drops :
    (env : Env) (pod : Pod) (s : PodsMap) (t : Trace) (e : Error)
    → CommitsSucceed (env.feed t my_topic)
    → end_error (env.feed t my_topic) ≡ some e
    → ((deploy_pod_on_new_node env pod s t).outcome ≡ err (wrapped "failed to consume message" e))
      × ((deploy_pod_on_new_node env pod s t).globals ≡ s)
      × ((deploy_pod_on_new_node env pod s t).trace ≡ (consume_message env pod.node_name s t).trace)
unfolding deploy_pod_on_new_node
deploy_pod_on_new_node_drops env pod s t e commits ends =
    let r = consume_message env pod.node_name s t in
    let same =
      (consume_message-Keeps {node = pod.node_name} {P = Same s} (λ s t h. h) (λ m s t p h. h)
          env).at
        s t refl in
    let batch : Batch = record {
      messages = select (is_for pod.node_name) (offered (env.feed t my_topic));
      error = end_error (env.feed t my_topic);
    } in
    let refused : messages_or_error batch ≡ err (wrapped "failed to consume message" e) =
      unfold messages_or_error in rw ends refl in
    let run : deploy_pod_on_new_node env pod s t
        ≡ (give (messages_or_error batch) >>= λ ms. for_each ms (deploy_message env pod)) r.globals
            r.trace =
      bind_from (consume_message env pod.node_name) _ s t batch
        (consume_message-eq env pod.node_name s t commits) in
    rw run (unfold ◌>>=◌ give in rw (refused, continue) (refl, same, refl))
