-- ===== src/Deploy.antt =====
-- practice/handlers/deploy-new-pod.go: the operator takes the messages for a registry pod's node and
-- starts the checkpointed pods.
pub mod Entries
pub mod Dropped
pub mod Counted
pub mod Launched
pub mod Announced
pub mod Invariants
pub mod Delivered
pub mod Completed
use checkpoint_operator.Base.{
  ◌*◌, List, [], ◌∷◌, ◌++◌, Option, none, some, Bytes, codes, trim_prefix,
}
use checkpoint_operator.Base.Int.{ℤ, sub_ℕ}
use checkpoint_operator.Outcome.{Error, Outcome, ok, err, errorf, wrapped}
use checkpoint_operator.Cluster.{
  Env, Pod, NewPod, Message, get_node, get_node_metrics, in_cluster_config, new_metrics_client,
  create_pod, get_namespace, create_namespace,
}
use checkpoint_operator.Proc.{
  Proc, call, return, give, gets, modify, on_error, or_fail, for_each, ◌>>=◌, ◌>>◌,
}
use checkpoint_operator.Util.Globals.{PodsMap, MigrationInfo, lookup, remove}
use checkpoint_operator.Util.Clientset.{create_client_set}
use checkpoint_operator.Util.HostPort.{get_pod_host_port}
use checkpoint_operator.Util.ImageCheck.{check_image_id_exist_on_node, check_job_status}
use checkpoint_operator.Kafka.{Batch, consume_message, produce_message_to_different_topics}

abbrev pub checkpoint_prefix : Bytes
checkpoint_prefix = codes "checkpoint-"

-- The name of the pod that was checkpointed, from that of the new pod.
unfoldable pub old_pod_name : Bytes → Bytes
old_pod_name pod_name = trim_prefix pod_name checkpoint_prefix

-- What is left of a node: capacity minus usage, as int64 (it may be negative).
pub record Remaining : Type 0 where
  pub cpu : ℤ
  pub memory : ℤ

-- The pod that is asked for. Requests are 1 millicore and 4 MiB.
unfoldable pub migrate_pod : Env → Bytes → Bytes → Remaining → MigrationInfo → NewPod
migrate_pod env name location left info = record {
  name = name;
  image = location;
  cpu_request_milli = 1;
  memory_request = 4 * 1024 * 1024;
  cpu_limit_milli = env.fifth left.cpu;
  memory_limit = env.fifth left.memory;
  node_name = info.destination_node;
}

module _ (env : Env) {S : Type 0} where
  unfoldable pub original_image_checker : Pod → Bytes → Proc S (Unit {0})
  original_image_checker pod node = do
    job ←
        or_fail (check_image_id_exist_on_node env pod.image_ids node)
          (λ e. wrapped "unable to check image id" e)
    or_fail (check_job_status env job.name) (λ e. wrapped "unable to check job status" e)

  unfoldable pub count_remaining : Bytes → Proc S Remaining
  count_remaining node = do
    or_fail (create_client_set env) (λ e. wrapped "unable to create clientset" e)
    capacity ←
        or_fail (call (get_node node) (λ t. env.allocatable t node))
          (λ e. wrapped "failed to retrieve node" e)
    or_fail (call in_cluster_config env.in_cluster_config)
        (λ e. wrapped "failed to create kubeconfig" e)
    or_fail (call new_metrics_client env.new_metrics_client)
        (λ e. wrapped "failed to create metrics client" e)
    usage ←
        or_fail (call (get_node_metrics node) (λ t. env.node_usage t node))
          (λ e. wrapped "failed to retrieve node metrics" e)
    return (record {
      cpu = sub_ℕ capacity.cpu_milli usage.cpu_milli;
      memory = sub_ℕ capacity.memory usage.memory;
    })

  unfoldable pub create_new_pod : NewPod → Bytes → Proc S NewPod
  create_new_pod pod namespace = do
    or_fail (create_client_set env) (λ e. wrapped "unable to create clientset" e)
    or_fail (call (create_pod namespace pod) (λ t. env.create_pod t namespace pod))
        (λ e. wrapped "unable to create pod" e)
    return pod

  -- Any error of Get makes the operator create the namespace.
  unfoldable pub check_destination_namespace_exists : Bytes → Proc S (Unit {0})
  check_destination_namespace_exists name = do
    or_fail (create_client_set env) (λ e. wrapped "unable to create clientset" e)
    on_error (call (get_namespace name) (λ t. env.get_namespace t name))
        (λ _.
          or_fail (call (create_namespace name) (λ t. env.create_namespace t name))
            (λ e. wrapped "unable to create the destination namespace" e))
        (λ _. return tt)

  -- The last two steps: create the pod, then tell the restore daemon to delete the old one.
  unfoldable pub launch : NewPod → MigrationInfo → Bytes → Proc S (Unit {0})
  launch pod info node = do
    new_pod ←
        or_fail (create_new_pod pod info.destination_namespace)
          (λ e. wrapped "unable to create new pod" e)
    or_fail (produce_message_to_different_topics env new_pod.name info.source_namespace node)
        (λ e. wrapped "failed to produce message" e)

  -- The rest of a message's round, once its entry is taken out of ProcessPodsMap.
  unfoldable pub deploy_from : Pod → Message → MigrationInfo → Proc S (Unit {0})
  deploy_from pod m info = do
    let location = get_pod_host_port pod ++ b'/' ∷ m.value ++ codes ":latest"
    left ←
        or_fail (count_remaining m.key)
          (λ e. wrapped "unable to count the remaining cpu and memory" e)
    or_fail (check_destination_namespace_exists info.destination_namespace)
        (λ e. wrapped "unable to check destination namespace" e)
    launch (migrate_pod env m.value location left info) info m.key

-- `info, ok := ProcessPodsMap[name]`, where a missing entry ends the function
unfoldable pub info_or_error : Option MigrationInfo → Outcome MigrationInfo
info_or_error none = err (errorf "unable to get the information of the pod: %w" [])
info_or_error (some info) = ok info

unless_error : Option Error → List Message → Outcome (List Message)
unless_error none messages = ok messages
unless_error (some e) messages = err (wrapped "failed to consume message" e)

-- An error of the consumer drops the messages that came with it.
unfoldable pub messages_or_error : Batch → Outcome (List Message)
unfolding unless_error
messages_or_error batch = unless_error batch.error batch.messages

module _ (env : Env) where
  -- One round of the loop over the messages.
  unfoldable pub deploy_message : Pod → Message → Proc PodsMap (Unit {0})
  deploy_message pod m = do
    let old = old_pod_name m.value
    found ← gets (λ s. lookup old s)
    info ← give (info_or_error found)
    modify (λ s. remove old s)
    deploy_from env pod m info

  unfoldable pub deploy_pod_on_new_node : Pod → Proc PodsMap (Unit {0})
  deploy_pod_on_new_node pod = do
    batch ← consume_message env pod.node_name
    messages ← give (messages_or_error batch)
    for_each messages (deploy_message pod)
