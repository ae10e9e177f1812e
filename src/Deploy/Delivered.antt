-- ===== src/Deploy/Delivered.antt =====
-- When a message leads to a pod: nothing but the outside can make a round fail.
use checkpoint_operator.Base.{some, Bytes, ◌∷◌, ◌≡◌, ◌≢◌, arith}
use checkpoint_operator.Outcome.{Error, ok, panic, wrapped}
use checkpoint_operator.Cluster.{
  Env, Pod, NewPod, Message, Resources, Trace, create_namespace, get_namespace, in_cluster_config,
}
use checkpoint_operator.Cluster.Reads.{writes}
use checkpoint_operator.Proc.{Proc, ◌>>=◌, on_error, or_fail, continue, modify, return, call}
use checkpoint_operator.Proc.Works.{
  Works, Done, Works-bind, Works-on_error, Works-return, Works-call,
}
use checkpoint_operator.Util.Globals.{PodsMap, MigrationInfo, lookup, remove}
use checkpoint_operator.Util.Clientset.{create_client_set}
use checkpoint_operator.Kafka.{delete_pod_topic, produce_message_to_different_topics, send}
use checkpoint_operator.Deploy.{
  old_pod_name, count_remaining, create_new_pod, check_destination_namespace_exists, launch,
  deploy_from, info_or_error, deploy_message,
}
use checkpoint_operator.Deploy.Launched.{Deployed, deploy_from-Deployed}

-- The cluster answers, the node of the message is known to it, and it takes the pod; the broker
-- takes the message. The lookup of the namespace may fail, since it is created then.
pub record Serves (env : Env) (m : Message) (info : MigrationInfo) : Type 0 where
  pub configured : (t : Trace) → env.in_cluster_config t ≡ ok tt
  pub connected : (t : Trace) → env.new_clientset t ≡ ok tt
  pub measured : (t : Trace) → env.new_metrics_client t ≡ ok tt
  pub node : (t : Trace) → (r : Resources) × (env.allocatable t m.key ≡ ok r)
  pub usage : (t : Trace) → (r : Resources) × (env.node_usage t m.key ≡ ok r)
  pub looks : (t : Trace) → env.get_namespace t info.destination_namespace ≢ panic
  pub creates : (t : Trace) → env.create_namespace t info.destination_namespace ≡ ok tt
  pub takes_pod : (t : Trace) (p : NewPod) → env.create_pod t info.destination_namespace p ≡ ok tt
  pub takes_message : (t : Trace) (n : Message) → env.write t delete_pod_topic n ≡ ok tt

module _ (env : Env) {S : Type 0} {s : S} where
  or_fail-Works :
      {A : Type 0} {Q : A → Type 0} (m : Proc S A) (f : Error → Error)
      → Works s Q m
      → Works s Q (or_fail m f)
  or_fail-Works m f w = Works-on_error m _ _ w (λ a q. Works-return a q)

  module _ (m : Message) (info : MigrationInfo) (h : Serves env m info) where
    client-Works : Works s Done (create_client_set env)
    unfolding create_client_set ◌>>=◌ on_error
    client-Works = record {
      at = λ t. (
        tt,
        ground (arith, h.configured t, h.connected (in_cluster_config ∷ t)),
        tt,
        ground arith,
      );
    }

    count_remaining-Works : Works s (λ _. Unit {0}) (count_remaining env m.key)
    unfolding count_remaining
    count_remaining-Works = Works-bind {Q = Done} _ _ (or_fail-Works _ _ client-Works) (λ _ _.
        Works-bind {Q = λ _. Unit {0}} _ _
          (or_fail-Works _ _ (Works-call _ _ (λ t. ((h.node t).0, (h.node t).1, tt))))
          (λ _ _.
            Works-bind {Q = Done} _ _
              (or_fail-Works _ _ (Works-call _ _ (λ t. (tt, h.configured t, tt))))
              (λ _ _.
                Works-bind {Q = Done} _ _
                  (or_fail-Works _ _ (Works-call _ _ (λ t. (tt, h.measured t, tt))))
                  (λ _ _.
                    Works-bind {Q = λ _. Unit {0}} _ _
                      (or_fail-Works _ _ (Works-call _ _ (λ t. ((h.usage t).0, (h.usage t).1, tt))))
                      (λ _ _. Works-return _ tt)))))

    get_or_create-Works : Works s Done (
        on_error
          (call
            (get_namespace info.destination_namespace)
            (λ t. env.get_namespace t info.destination_namespace))
          (λ _.
            or_fail
              (call
                (create_namespace info.destination_namespace)
                (λ t. env.create_namespace t info.destination_namespace))
              (λ e. wrapped "unable to create the destination namespace" e))
          (λ _. return tt))
    unfolding on_error
    get_or_create-Works = record {
      at = λ t.
          let looked = get_namespace info.destination_namespace ∷ t in
          (
            tt,
            ground (arith, h.looks t, h.creates looked),
            tt,
            ground (arith, h.looks t, h.creates looked),
          );
    }

    namespace-Works :
        Works s Done (check_destination_namespace_exists env info.destination_namespace)
    unfolding check_destination_namespace_exists
    namespace-Works =
        Works-bind {Q = Done} _ _ (or_fail-Works _ _ client-Works) (λ _ _. get_or_create-Works)

    create_new_pod-Works :
        (p : NewPod) → Works s (λ _. Unit {0}) (create_new_pod env p info.destination_namespace)
    unfolding create_new_pod
    create_new_pod-Works p = Works-bind {Q = Done} _ _ (or_fail-Works _ _ client-Works) (λ _ _.
        Works-bind {Q = Done} _ _
          (or_fail-Works _ _ (Works-call _ _ (λ t. (tt, h.takes_pod t p, tt))))
          (λ _ _. Works-return p tt))

    announce-Works :
        (name namespace node : Bytes)
        → Works s Done (produce_message_to_different_topics env name namespace node)
    unfolding produce_message_to_different_topics send
    announce-Works name namespace node = Works-call _ _ (λ t. (tt, h.takes_message t _, tt))

    launch-Works : (p : NewPod) → Works s Done (launch env p info m.key)
    unfolding launch
    launch-Works p =
        Works-bind {Q = λ _. Unit {0}} _ _ (or_fail-Works _ _ (create_new_pod-Works p))
          (λ _ _. or_fail-Works _ _ (announce-Works _ _ _))

    deploy_from-Works : (pod : Pod) → Works s Done (deploy_from env pod m info)
    unfolding deploy_from
    deploy_from-Works pod =
        Works-bind {Q = λ _. Unit {0}} _ _ (or_fail-Works _ _ count_remaining-Works) (λ left _.
          Works-bind {Q = Done} _ _ (or_fail-Works _ _ namespace-Works) (λ _ _. launch-Works _))

-- Where the message's pod has an entry, and the cluster and the broker serve, the message's round
-- succeeds: the new pod is created as the entry and the message describe it, and the restore daemon
-- is told directly after.
pub deploy_message_delivers :
    (env : Env) (pod : Pod) (m : Message) (info : MigrationInfo) (s : PodsMap) (t : Trace)
    → lookup (old_pod_name m.value) s ≡ some info
    → Serves env m info
    → let r = deploy_message env pod m s t in
      (r.outcome ≡ ok tt) × Deployed env pod m info (writes t) (writes r.trace)
unfolding deploy_message ◌>>=◌ info_or_error modify
deploy_message_delivers env pod m info s t e serves =
    let rest = remove (old_pod_name m.value) s in
    let (_, done, _, _) = (deploy_from-Works env {s = rest} m info serves pod).at t in
    rw (e, info_or_error, continue) (done, deploy_from-Deployed env pod m info rest t done)
