-- ===== src/Daemons/Code.antt =====
-- practice/handlers/deploy-new-pod.go and what it calls, as a goroutine: a call of the outside or an
-- access to ProcessPodsMap is one step, and other goroutines may come between two steps.
use checkpoint_operator.Base.{List, [], ◌∷◌, ◌++◌, none, some, Bytes, codes, ◌=s◌, if◌then◌else◌}
use checkpoint_operator.Base.Int.{sub_ℕ}
use checkpoint_operator.Outcome.{ok, panic, wrapped}
use checkpoint_operator.Cluster.{
  Env, Pod, NewPod, Message, Feed, expired, deadline, failed, fetched, in_cluster_config,
  build_config, new_clientset, get_node, get_node_metrics, new_metrics_client, create_pod,
  get_namespace, create_namespace, fetch, commit, write,
}
use checkpoint_operator.Proc.{call, gets, modify, observe}
use checkpoint_operator.Util.Globals.{PodsMap, MigrationInfo, lookup, remove}
use checkpoint_operator.Util.HostPort.{get_pod_host_port}
use checkpoint_operator.Kafka.{Batch, my_topic, delete_pod_topic, delete_message, is_blank}
use checkpoint_operator.Deploy.{
  Remaining, migrate_pod, old_pod_name, info_or_error, messages_or_error,
}
use checkpoint_operator.Outcome.{deadline_exceeded}
use checkpoint_operator.Threads.{Prog, done, atomic, ◌>>=◌, ◌>>◌, on_error, or_fail, for_each}

module _ (env : Env) where
  unfoldable pub create_client_set : Prog PodsMap (Unit {0})
  create_client_set = do
    on_error (atomic (call in_cluster_config env.in_cluster_config))
        (λ _.
          let path = env.home ++ codes "/.kube/config" in
          on_error (atomic (call (build_config path) (λ t. env.build_config t path)))
            (λ _. done panic) (λ _. done (ok tt)))
        (λ _. done (ok tt))
    atomic (call new_clientset env.new_clientset)

  unfoldable pub count_remaining : Bytes → Prog PodsMap Remaining
  count_remaining node = do
    or_fail create_client_set (λ e. wrapped "unable to create clientset" e)
    capacity ←
        or_fail (atomic (call (get_node node) (λ t. env.allocatable t node)))
          (λ e. wrapped "failed to retrieve node" e)
    or_fail (atomic (call in_cluster_config env.in_cluster_config))
        (λ e. wrapped "failed to create kubeconfig" e)
    or_fail (atomic (call new_metrics_client env.new_metrics_client))
        (λ e. wrapped "failed to create metrics client" e)
    usage ←
        or_fail (atomic (call (get_node_metrics node) (λ t. env.node_usage t node)))
          (λ e. wrapped "failed to retrieve node metrics" e)
    done (
        ok (record {
          cpu = sub_ℕ capacity.cpu_milli usage.cpu_milli;
          memory = sub_ℕ capacity.memory usage.memory;
        }))

  unfoldable pub create_new_pod : NewPod → Bytes → Prog PodsMap NewPod
  create_new_pod pod namespace = do
    or_fail create_client_set (λ e. wrapped "unable to create clientset" e)
    or_fail (atomic (call (create_pod namespace pod) (λ t. env.create_pod t namespace pod)))
        (λ e. wrapped "unable to create pod" e)
    done (ok pod)

  unfoldable pub check_destination_namespace_exists : Bytes → Prog PodsMap (Unit {0})
  check_destination_namespace_exists name = do
    or_fail create_client_set (λ e. wrapped "unable to create clientset" e)
    on_error (atomic (call (get_namespace name) (λ t. env.get_namespace t name)))
        (λ _.
          or_fail (atomic (call (create_namespace name) (λ t. env.create_namespace t name)))
            (λ e. wrapped "unable to create the destination namespace" e))
        (λ _. done (ok tt))

  unfoldable pub produce_message_to_different_topics :
      Bytes → Bytes → Bytes → Prog PodsMap (Unit {0})
  produce_message_to_different_topics key namespace node =
      let m = delete_message key namespace node in
      atomic (call (write delete_pod_topic m) (λ t. env.write t delete_pod_topic m))

  unfoldable pub launch : NewPod → MigrationInfo → Bytes → Prog PodsMap (Unit {0})
  launch pod info node = do
    new_pod ←
        or_fail (create_new_pod pod info.destination_namespace)
          (λ e. wrapped "unable to create new pod" e)
    or_fail (produce_message_to_different_topics new_pod.name info.source_namespace node)
        (λ e. wrapped "failed to produce message" e)

  unfoldable pub deploy_from : Pod → Message → MigrationInfo → Prog PodsMap (Unit {0})
  deploy_from pod m info = do
    let location = get_pod_host_port pod ++ b'/' ∷ m.value ++ codes ":latest"
    left ←
        or_fail (count_remaining m.key)
          (λ e. wrapped "unable to count the remaining cpu and memory" e)
    or_fail (check_destination_namespace_exists info.destination_namespace)
        (λ e. wrapped "unable to check destination namespace" e)
    launch (migrate_pod env m.value location left info) info m.key

  -- The lookup and the removal are two steps.
  unfoldable pub deploy_message : Pod → Message → Prog PodsMap (Unit {0})
  deploy_message pod m = do
    let old = old_pod_name m.value
    found ← atomic (gets (λ s. lookup old s))
    info ← done (info_or_error found)
    atomic (modify (λ s. remove old s))
    deploy_from pod m info

unfoldable pub consume_loop : Bytes → List Message → Feed → Prog PodsMap Batch
consume_loop node found expired =
    done (ok (record { messages = found; error = some deadline_exceeded }))
consume_loop node found deadline = done (ok (record { messages = found; error = none }))
consume_loop node found (failed rest) = do
  atomic (call fetch (λ _. ok tt))
  consume_loop node found rest
consume_loop node found (fetched m committed rest) = do
  atomic (call fetch (λ _. ok tt))
  let skip = consume_loop node found rest
  let keep = consume_loop node (found ++ m ∷ []) rest
  if is_blank m
      then on_error (atomic (call (commit m) (λ _. committed))) (λ _. skip) (λ _. skip)
      else if m.key =s node
      then on_error (atomic (call (commit m) (λ _. committed)))
          (λ e. done (ok (record { messages = found; error = some e }))) (λ _. keep)
      else skip

module _ (env : Env) where
  unfoldable pub consume_message : Bytes → Prog PodsMap Batch
  consume_message node = do
    feed ← atomic (observe (λ t. ok (env.feed t my_topic)))
    consume_loop node [] feed

  unfoldable pub deploy_pod_on_new_node : Pod → Prog PodsMap (Unit {0})
  deploy_pod_on_new_node pod = do
    batch ← consume_message pod.node_name
    messages ← done (messages_or_error batch)
    for_each messages (deploy_message env pod)
