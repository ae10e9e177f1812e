-- ===== src/Trials.antt =====
-- practice/nodemetrics_test, practice/kafka-producer, practice/kafka-client: programs that try out a
-- part by hand.
pub mod Found
use checkpoint_operator.Base.{[], ◌*◌, Bytes, codes, List, ◌∷◌, Bool, ◌&&◌, ◌=s◌, if◌then◌else◌}
use checkpoint_operator.Base.Int.{pos}
use checkpoint_operator.Outcome.{Error, Outcome, ok, err, wrapped}
use checkpoint_operator.Cluster.{
  Env, NewPod, Message, in_cluster_config, new_metrics_client, get_node, get_node_metrics,
  create_pod, write, fetch, commit,
}
use checkpoint_operator.Proc.{Proc, call, give, return, or_fail, attempt, ◌>>=◌, ◌>>◌}
use checkpoint_operator.Util.Clientset.{create_client_set, through}
use checkpoint_operator.Kafka.{my_topic}

abbrev trial_node : Bytes
trial_node = codes "workernode01"

-- Its limits are constants; those that are computed are only logged. Its container is called
-- `nginx`, which is left out.
abbrev trial_pod : NewPod
trial_pod = record {
  name = codes "new-pod";
  image = codes "nginx";
  cpu_request_milli = 30;
  memory_request = 5 * 1024 * 1024;
  cpu_limit_milli = pos 3055;
  memory_limit = pos 2063459942;
  node_name = [];
}

abbrev trial_message : Message
trial_message = record { key = codes "key1"; value = codes "value1" }

module _ (env : Env) {S : Type 0} where
  -- The error of createClientSet is not looked at. log.Fatalf ends the process.
  unfoldable pub try_node_metrics : Proc S (Unit {0})
  try_node_metrics = do
    client ← attempt (create_client_set env)
    or_fail (call in_cluster_config env.in_cluster_config)
        (λ e. wrapped "Failed to create kubeconfig" e)
    or_fail (call new_metrics_client env.new_metrics_client)
        (λ e. wrapped "Failed to create metrics client" e)
    or_fail (through client (call (get_node trial_node) (λ t. env.allocatable t trial_node)))
        (λ e. wrapped "Failed to retrieve node" e)
    or_fail (call (get_node_metrics trial_node) (λ t. env.node_usage t trial_node))
        (λ e. wrapped "Failed to get metrics for node" e)
    or_fail
        (call (create_pod (codes "default") trial_pod)
          (λ t. env.create_pod t (codes "default") trial_pod))
        (λ e. wrapped "Failed to create pod" e)

  -- The argument is the outcome of closing the writer.
  unfoldable pub try_producer : Outcome (Unit {0}) → Proc S (Unit {0})
  try_producer closed = do
    or_fail (call (write my_topic trial_message) (λ t. env.write t my_topic trial_message))
        (λ e. wrapped "Failed to send message" e)
    or_fail (give closed) (λ e. wrapped "Failed to close producer" e)

abbrev pub kafka_message : Message
kafka_message = record { key = codes "default"; value = codes "checkpoint-alpine-counter" }

unfoldable pub is_kafka_message : Message → Bool
is_kafka_message m = m.key =s kafka_message.key && m.value =s kafka_message.value

-- What FetchMessage gives, one fetch after the other: an error, or a message with the outcomes of
-- committing it once and once more. After the last, it waits for ever.
pub data Delivery : Type 0 where
  refused : Error → Delivery
  delivered : Message → Outcome (Unit {0}) → Outcome (Unit {0}) → Delivery

-- Where the consumer has come to: it waits in FetchMessage, or has left its loop.
pub data Progress : Type 0 where
  waiting : Progress
  found : Progress

module _ {S : Type 0} where
  -- The loop of the command line consumer. log.Fatalf ends the process.
  unfoldable pub consume_until : List Delivery → Proc S Progress
  unfolding is_kafka_message
  consume_until [] = return waiting
  consume_until (refused e ∷ rest) =
      or_fail (call fetch (λ _. err e)) (λ e. wrapped "Failed to fetch message" e)
  consume_until (delivered m first second ∷ rest) = do
    call fetch (λ _. ok tt)
    or_fail (call (commit m) (λ _. first)) (λ e. wrapped "Failed to commit message" e)
    let more = consume_until rest
    if is_kafka_message m
        then (do
          or_fail (call (commit m) (λ _. second)) (λ e. wrapped "Failed to commit message" e)
          return found)
        else more

-- tls.Config, as far as it is set
pub record TlsConfig (Pool : Type 0) : Type 0 where
  pub root_cas : Pool

-- createConfigFromCA, which is not called. The parameters are os.ReadFile, x509.NewCertPool and its
-- AppendCertsFromPEM, whose result is not looked at. log.Fatalf ends the process.
module _ {Pool S : Type 0} (read_file : Bytes → Outcome Bytes) (new_cert_pool : Pool)
    (append_certs_from_pem : Pool → Bytes → Pool) where
  unfoldable pub create_config_from_ca : Bytes → Proc S (TlsConfig Pool)
  create_config_from_ca file_path = do
    ca_cert ← or_fail (give (read_file file_path)) (λ e. wrapped "Failed to read CA certificate" e)
    return (record { root_cas = append_certs_from_pem new_cert_pool ca_cert })
