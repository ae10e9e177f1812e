-- ===== src/Pipeline/Succession.antt =====
-- A migration from end to end: the reconciler, the deployment of the image, the restore daemon.
use checkpoint_operator.Base.{[], ◌∷◌, ◌++◌, true, Bytes, Lacks, ◌≡◌, ◌≢◌, arith, ◌∙◌}
use checkpoint_operator.Outcome.{ok}
use checkpoint_operator.Cluster.{
  Env, MigrationSpec, Message, NewPod, Pod, Trace, create_pod, delete_pod, get_pod, write,
  in_cluster_config, new_clientset,
}
use checkpoint_operator.Cluster.Reads.{writes}
use checkpoint_operator.Proc.{Run, ◌>>=◌, on_error}
use checkpoint_operator.Util.Globals.{PodsMap, MigrationInfo}
use checkpoint_operator.Util.Clientset.{create_client_set, through}
use checkpoint_operator.Util.ImageName.{modify_checkpoint_to_image_name}
use checkpoint_operator.Kafka.{Notice, read_notice, delete_pod_topic, delete_message}
use checkpoint_operator.Kafka.Notices.{read_notice-delete_message}
use checkpoint_operator.Migration.{reconcile}
use checkpoint_operator.Migration.Lock.{entry_of, reconcile-Enters}
use checkpoint_operator.Deploy.{deploy_message, checkpoint_prefix}
use checkpoint_operator.Deploy.Delivered.{Serves, deploy_message_delivers}
use checkpoint_operator.Restore.{after_dash, delete_old_pod, handle_notice}
use checkpoint_operator.Pipeline.Names.{archive_path, archive-names}

-- The daemon reaches the cluster, finds the pod and may delete it.
pub record CanDelete (env : Env) (namespace name : Bytes) : Type 0 where
  pub configured : (t : Trace) → env.in_cluster_config t ≡ ok tt
  pub connected : (t : Trace) → env.new_clientset t ≡ ok tt
  pub finds : (t : Trace) → (p : Pod) × (env.get_pod t namespace name ≡ ok p)
  pub deletes : (t : Trace) → env.delete_pod t namespace name ≡ ok tt

module _ (env : Env) {S : Type 0} (s : S) (t : Trace) where
  delete_old_pod_done :
      (namespace name : Bytes)
      → CanDelete env namespace name
      → let r = delete_old_pod env namespace name s t in
        (r.outcome ≡ ok true) × (writes r.trace ≡ delete_pod namespace name ∷ writes t)
  unfolding delete_old_pod create_client_set through ◌>>=◌ on_error
  delete_old_pod_done namespace name h =
      let reached = new_clientset ∷ in_cluster_config ∷ t in
      ground (
        arith,
        h.configured t,
        h.connected (in_cluster_config ∷ t),
        (h.finds reached).1,
        h.deletes (get_pod namespace name ∷ reached),
      )

  handle_notice_done :
      (n : Notice)
      → n.pod ≢ []
      → n.namespace ≢ []
      → n.node ≢ []
      → CanDelete env n.namespace (after_dash n.pod)
      → let r = handle_notice env n s t in
        (r.outcome ≡ ok tt)
        × (writes r.trace ≡ delete_pod n.namespace (after_dash n.pod) ∷ writes t)
  unfolding handle_notice ◌>>=◌
  handle_notice_done n pod namespace node h =
      ground (arith, pod, namespace, node, delete_old_pod_done n.namespace (after_dash n.pod) h)

-- The new pod is created where the Migration says, the restore daemon is told, and what it reads
-- makes it delete the old pod.
pub record Succeeds (spec : MigrationSpec) (deployed : Run PodsMap (Unit {0})) (daemon : Env)
    {S : Type 0} (s : S) (t : Trace) : Type 0 where
  pub deploys : deployed.outcome ≡ ok tt
  pub new_pod : NewPod
  pub prepared : Trace
  pub message : Message
  pub notice : Notice
  pub asked :
      writes deployed.trace
      ≡ write delete_pod_topic message ∷ create_pod spec.destination_namespace new_pod ∷ prepared
  pub named : new_pod.name ≡ checkpoint_prefix ++ spec.pod_name
  pub placed : new_pod.node_name ≡ spec.destination_node
  pub read : read_notice message ≡ ok notice
  pub deletes : (handle_notice daemon notice s t).outcome ≡ ok tt
  pub deleted :
      writes (handle_notice daemon notice s t).trace
      ≡ delete_pod spec.namespace spec.pod_name ∷ writes t

-- The entry's namespace is all that serving depends on.
Serves-same :
    (env : Env) (m : Message) (info info' : MigrationInfo)
    → info'.destination_namespace ≡ info.destination_namespace
    → Serves env m info
    → Serves env m info'
Serves-same env m info info' e h = record {
  configured = h.configured;
  connected = h.connected;
  measured = h.measured;
  node = h.node;
  usage = h.usage;
  looks = λ t. rw e (h.looks t);
  creates = λ t. rw e (h.creates t);
  takes_pod = λ t p. rw e (h.takes_pod t p);
  takes_message = h.takes_message;
}

-- What the registry reports of the image of a pod's archive.
abbrev pub image_message : Bytes → Bytes → Bytes → Message
image_message node pod rest = record {
  key = node;
  value = modify_checkpoint_to_image_name (archive_path pod rest);
}

some_text : (pod image : Bytes) → image ≡ checkpoint_prefix ++ pod → image ≢ []
some_text pod image e none_left = cc (e, none_left)

module _ (env daemon : Env) (registry : Pod) (namespace name : Bytes) (spec : MigrationSpec)
    (rest node : Bytes) {S : Type 0} where
  -- Where a Migration is fetched and reconciled, however that ends, and its pod's image then arrives:
  -- if the cluster and the broker serve, the pod's name holds no underscore, its namespace no slash,
  -- and neither the namespace nor the name of the registry pod's node is empty, then the new pod is
  -- created in the destination's namespace and for its node, and the message that is sent directly
  -- after it makes a restore daemon that may delete the old pod delete just that pod.
  pub migration-Succeeds :
      (s : PodsMap) (t t₁ : Trace) (s₂ : S) (t₂ : Trace)
      → env.get_migration t namespace name ≡ ok spec
      → Lacks b'_' spec.pod_name
      → Lacks b'/' spec.namespace
      → spec.namespace ≢ []
      → node ≢ []
      → Serves env (image_message node spec.pod_name rest) (entry_of spec [])
      → CanDelete daemon spec.namespace spec.pod_name
      → Succeeds spec
          (deploy_message env registry
            (image_message node spec.pod_name rest)
            (reconcile env namespace name s t).globals
            t₁)
          daemon
          s₂
          t₂
  migration-Succeeds s t t₁ s₂ t₂ fetched underscore slash some_namespace some_node serves can =
      let m = image_message node spec.pod_name rest in
      let held = (reconcile env namespace name s t).globals in
      let (image, old, after) = archive-names spec.pod_name rest underscore in
      let (info, entered, entry) = reconcile-Enters env namespace name spec s t fetched in
      let (done, made) =
        deploy_message_delivers env registry m info held t₁ (rw old entered)
          (Serves-same env m (entry_of spec []) info entry.namespace serves) in
      let notice : Notice = record { pod = m.value; namespace = spec.namespace; node = node } in
      let removed =
        handle_notice_done daemon s₂ t₂ notice (some_text spec.pod_name m.value image)
          some_namespace some_node (rw after can) in
      record {
        deploys = done;
        new_pod = made.new_pod;
        prepared = made.prepared;
        message = delete_message m.value spec.namespace node;
        notice = notice;
        asked = rw (entry.source, entry.namespace) at made.asked;
        named = made.continues.name_given ∙ image;
        placed = made.continues.node ∙ entry.node;
        read = read_notice-delete_message m.value spec.namespace node slash;
        deletes = removed.0;
        deleted = rw after at removed.1;
      }
