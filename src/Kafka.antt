-- ===== src/Kafka.antt =====
-- The Kafka client code: practice/handlers/kafka.go, practice/testwebhook/kafkaproducer/producer.go
-- and practice/handlers/restore/kafka/consumer.go.
pub mod Consumed
pub mod Commits
pub mod Notices
use checkpoint_operator.Base.{
  ℕ, suc, List, [], ◌∷◌, ◌++◌, Option, none, some, Bool, ◌||◌, Bytes, codes, is_empty, index, take,
  drop, ◌=s◌, if◌then◌else◌,
}
use checkpoint_operator.Outcome.{Error, Outcome, ok, panic, deadline_exceeded}
use checkpoint_operator.Cluster.{
  Env, Feed, expired, deadline, failed, fetched, Message, fetch, commit, write,
}
use checkpoint_operator.Proc.{Proc, call, return, give, observe, on_error, ◌>>=◌, ◌>>◌}
use checkpoint_operator.Util.ImageName.{modify_checkpoint_to_image_name}

abbrev pub my_topic : Bytes
my_topic = codes "my-topic"

abbrev pub delete_pod_topic : Bytes
delete_pod_topic = codes "delete-pod"

-- A consumer gives back the list and the error together.
pub record Batch : Type 0 where
  pub messages : List Message
  pub error : Option Error

unfoldable pub is_blank : Message → Bool
is_blank m = is_empty m.key || is_empty m.value

module _ {S : Type 0} where
  -- The loop of ConsumeMessage, over what its rounds meet. A commit that fails ends it only for a
  -- message of this node.
  unfoldable pub consume_loop : Bytes → List Message → Feed → Proc S Batch
  consume_loop node found expired =
      return (record { messages = found; error = some deadline_exceeded })
  consume_loop node found deadline = return (record { messages = found; error = none })
  consume_loop node found (failed rest) = do call fetch (λ _. ok tt); consume_loop node found rest
  consume_loop node found (fetched m committed rest) = do
    call fetch (λ _. ok tt)
    let skip = consume_loop node found rest
    let keep = consume_loop node (found ++ m ∷ []) rest
    if is_blank m
        then on_error (call (commit m) (λ _. committed)) (λ _. skip) (λ _. skip)
        else if m.key =s node
        then on_error (call (commit m) (λ _. committed))
            (λ e. return (record { messages = found; error = some e })) (λ _. keep)
        else skip

  -- The loop of ConsumeMessageFromDifferentTopics: every message is taken.
  unfoldable pub consume_all_loop : List Message → Feed → Proc S Batch
  consume_all_loop found expired =
      return (record { messages = found; error = some deadline_exceeded })
  consume_all_loop found deadline = return (record { messages = found; error = none })
  consume_all_loop found (failed rest) = do call fetch (λ _. ok tt); consume_all_loop found rest
  consume_all_loop found (fetched m committed rest) = do
    call fetch (λ _. ok tt)
    on_error (call (commit m) (λ _. committed))
        (λ e. return (record { messages = found; error = some e }))
        (λ _. consume_all_loop (found ++ m ∷ []) rest)

module _ (env : Env) {S : Type 0} where
  unfoldable pub consume_message : Bytes → Proc S Batch
  consume_message node = do
    feed ← observe (λ t. ok (env.feed t my_topic))
    consume_loop node [] feed

  unfoldable pub consume_message_from_different_topics : Bytes → Proc S Batch
  consume_message_from_different_topics node = do
    feed ← observe (λ t. ok (env.feed t delete_pod_topic))
    consume_all_loop [] feed

  -- WriteMessages; an error of Close is only logged.
  unfoldable pub send : Bytes → Message → Proc S (Unit {0})
  send topic m = call (write topic m) (λ t. env.write t topic m)

  -- handlers.ProduceMessage
  unfoldable pub produce_message : Bytes → Bytes → Proc S (Unit {0})
  produce_message key value =
      send my_topic (record { key = key; value = modify_checkpoint_to_image_name value })

  -- kafkaproducer.ProduceMessage
  unfoldable pub produce_message_as_is : Bytes → Bytes → Proc S (Unit {0})
  produce_message_as_is key value = send my_topic (record { key = key; value = value })

-- The message of ProduceMessageToDifferentTopics: `nameSpace + "/" + nodeName`.
unfoldable pub delete_message : Bytes → Bytes → Bytes → Message
delete_message key namespace node = record { key = key; value = namespace ++ b'/' ∷ node }

unfoldable pub produce_message_to_different_topics :
    Env → {S : Type 0} → Bytes → Bytes → Bytes → Proc S (Unit {0})
produce_message_to_different_topics env key namespace node =
    send env delete_pod_topic (delete_message key namespace node)

-- What the restore daemon reads from a message: pod, namespace and node.
pub record Notice : Type 0 where
  pub pod : Bytes
  pub namespace : Bytes
  pub node : Bytes

abbrev pub no_notice : Notice
no_notice = record { pod = []; namespace = []; node = [] }

notice_at : Message → Option ℕ → Outcome Notice
notice_at m none = panic
notice_at m (some i) =
    ok (record { pod = m.key; namespace = take i m.value; node = drop (suc i) m.value })

-- `value[0:strings.Index(value, "/")]` is a panic where the value holds no `/`.
unfoldable pub read_notice : Message → Outcome Notice
unfolding notice_at
read_notice m = notice_at m (index m.value b'/')

module _ {S : Type 0} where
  -- The loop of the daemon's ConsumeMessage: it ends at the first message. The notice comes with
  -- the error, if there is one.
  unfoldable pub notice_loop : Feed → Proc S (Notice × Option Error)
  notice_loop expired = return (no_notice, some deadline_exceeded)
  notice_loop deadline = return (no_notice, none)
  notice_loop (failed rest) = do call fetch (λ _. ok tt); notice_loop rest
  notice_loop (fetched m committed rest) = do
    call fetch (λ _. ok tt)
    let parsed = give (read_notice m) >>= λ n. return (n, none)
    on_error (call (commit m) (λ _. committed)) (λ _. parsed) (λ _. parsed)

unfoldable pub consume_notice : Env → {S : Type 0} → Proc S (Notice × Option Error)
consume_notice env = do feed ← observe (λ t. ok (env.feed t delete_pod_topic)); notice_loop feed
