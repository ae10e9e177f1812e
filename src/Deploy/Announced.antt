-- ===== src/Deploy/Announced.antt =====
-- The order of the calls: the restore daemon is told to delete a pod only once its successor exists.
use checkpoint_operator.Base.{[], ◌∷◌, Bytes, ◌≡◌, arith, inl, inr}
use checkpoint_operator.Outcome.{ok, Outcome-cases}
use checkpoint_operator.Cluster.{Env, Pod, NewPod, Message, Trace, create_pod, write}
use checkpoint_operator.Proc.{branch, call, continue, on_error, ◌>>=◌}
use checkpoint_operator.Proc.Keeps.{Keeps, Keeps-call, keeps_rules, Keeps-modify}
use checkpoint_operator.Proc.Inversion.{or_fail_trace}
use checkpoint_operator.Util.Globals.{PodsMap, MigrationInfo}
use checkpoint_operator.Util.Clientset.{create_client_set}
use checkpoint_operator.Kafka.{
  delete_pod_topic, delete_message, produce_message_to_different_topics, send, consume_message,
}
use checkpoint_operator.Kafka.Commits.{consume_message-Keeps}
use checkpoint_operator.Deploy.{
  count_remaining, create_new_pod, check_destination_namespace_exists, launch, deploy_from,
  deploy_message, deploy_pod_on_new_node,
}

-- The newest call of the trace created a pod with this name, and the cluster accepted it.
abbrev pub JustCreated : Env → Bytes → Trace → Type 0
JustCreated env name [] = ⊥
JustCreated env name (create_pod namespace p ∷ t) =
    (p.name ≡ name) × (env.create_pod t namespace p ≡ ok tt)
JustCreated env name (c ∷ t) = ⊥

-- Each message to the topic `delete-pod` comes directly after the creation of the pod that it names.
abbrev pub Announced : Env → Trace → Type 0
Announced env [] = Unit
Announced env (write topic m ∷ t) =
    (topic ≡ delete_pod_topic → JustCreated env m.key t) × Announced env t
Announced env (c ∷ t) = Announced env t

module _ (env : Env) {S : Type 0} where
  abbrev Announces : S → Trace → Type 0
  Announces s t = Announced env t

  create_client_set-Announces : Keeps Announces (create_client_set env)
  unfolding create_client_set
  create_client_set-Announces = search (keeps_rules, Keeps-call) depth 8

  create_new_pod-Announces : (p : NewPod) (n : Bytes) → Keeps Announces (create_new_pod env p n)
  unfolding create_new_pod
  create_new_pod-Announces p n =
      search (keeps_rules, Keeps-call, create_client_set-Announces) depth 8

  namespace-Announces : (n : Bytes) → Keeps Announces (check_destination_namespace_exists env n)
  unfolding check_destination_namespace_exists
  namespace-Announces n = search (keeps_rules, Keeps-call, create_client_set-Announces) depth 8

  count_remaining-Announces : (n : Bytes) → Keeps Announces (count_remaining env n)
  unfolding count_remaining
  count_remaining-Announces n =
      search (keeps_rules, Keeps-call, create_client_set-Announces) depth 12

  -- Announces successful creation is the newest call.
  create_new_pod-JustCreated :
      (p : NewPod) (n : Bytes) (s : S) (t : Trace) (q : NewPod)
      → (create_new_pod env p n s t).outcome ≡ ok q
      → JustCreated env q.name (create_new_pod env p n s t).trace
  unfolding create_new_pod ◌>>=◌ on_error
  create_new_pod-JustCreated p n s t q h = ground arith

  announce-Announces :
      (name namespace node : Bytes) (s : S) (t : Trace)
      → JustCreated env name t
      → Announced env t
      → Announced env (produce_message_to_different_topics env name namespace node s t).trace
  unfolding produce_message_to_different_topics send delete_message call
  announce-Announces name namespace node s t new h = (λ _. new, h)

  launch-Announces :
      (p : NewPod) (info : MigrationInfo) (node : Bytes) → Keeps Announces (launch env p info node)
  unfolding launch ◌>>=◌ on_error
  launch-Announces p info node = record {
    at = λ s t h.
        let r = create_new_pod env p info.destination_namespace s t in
        let kept = (create_new_pod-Announces p info.destination_namespace).at s t h in
        let made = create_new_pod-JustCreated p info.destination_namespace s t in
        elim (Outcome-cases r.outcome) [
          | inl (q, e) ↦
              rw (e, branch, continue)
                (rw or_fail_trace (
                  announce-Announces q.name info.source_namespace node r.globals r.trace (made q e)
                    kept))
          | inr (inl (x, e)) ↦ rw (e, branch, continue) kept
          | inr (inr e) ↦ rw (e, branch, continue) kept
        ];
  }

  deploy_from-Announces :
      (pod : Pod) (m : Message) (info : MigrationInfo)
      → Keeps Announces (deploy_from env pod m info)
  unfolding deploy_from
  deploy_from-Announces pod m info =
      search (keeps_rules, launch-Announces, namespace-Announces, count_remaining-Announces) depth 8

  consume_message-Announces : (node : Bytes) → Keeps Announces (consume_message env node)
  consume_message-Announces node =
      consume_message-Keeps {P = Announces} (λ s t h. h) (λ m s t p h. h) env

deploy_message-Announces :
    (env : Env) (pod : Pod) (m : Message) → Keeps (Announces env) (deploy_message env pod m)
unfolding deploy_message
deploy_message-Announces env pod m =
    search (keeps_rules, Keeps-modify, deploy_from-Announces) depth 8

deploy_pod_on_new_node-Announces :
    (env : Env) (pod : Pod) → Keeps (Announces env) (deploy_pod_on_new_node env pod)
unfolding deploy_pod_on_new_node
deploy_pod_on_new_node-Announces env pod =
    search (keeps_rules, consume_message-Announces, deploy_message-Announces) depth 8

-- If it is so in the trace before the run, then however the run ends, each message to the topic
-- `delete-pod` in the trace comes directly after a creation of the pod that it names, which the
-- cluster accepted.
pub deploy_pod_on_new_node_announces :
    (env : Env) (pod : Pod) (s : PodsMap) (t : Trace)
    → Announced env t
    → Announced env (deploy_pod_on_new_node env pod s t).trace
deploy_pod_on_new_node_announces env pod s t h = (deploy_pod_on_new_node-Announces env pod).at s t h
