-- ===== src/Kafka/Consumed.antt =====
-- What ConsumeMessage returns, against a description that has no loop and no accumulator.
use checkpoint_operator.Base.{
  List, [], ◌∷◌, ◌++◌, Option, none, some, Bool, not, ◌&&◌, Bytes, select, ◌=s◌, ◌≡◌, arith,
  append_assoc, append-nil,
}
use checkpoint_operator.Outcome.{Error, ok, deadline_exceeded}
use checkpoint_operator.Cluster.{
  Env, Feed, expired, deadline, failed, fetched, Message, Trace, fetch, commit,
}
use checkpoint_operator.Proc.{◌>>=◌, on_error}
use checkpoint_operator.Kafka.{is_blank, consume_loop, consume_message, my_topic}

-- The messages that the broker offers before the time is over.
abbrev pub offered : Feed → List Message
offered expired = []
offered deadline = []
offered (failed rest) = offered rest
offered (fetched m committed rest) = m ∷ offered rest

-- Each commit of the feed succeeds.
abbrev pub CommitsSucceed : Feed → Type 0
CommitsSucceed expired = Unit
CommitsSucceed deadline = Unit
CommitsSucceed (failed rest) = CommitsSucceed rest
CommitsSucceed (fetched m committed rest) = (committed ≡ ok tt) × CommitsSucceed rest

-- The error that the end of the feed brings: `select` finding the context done is an error, a fetch
-- that is cut off by the deadline is none.
abbrev pub end_error : Feed → Option Error
end_error expired = some deadline_exceeded
end_error deadline = none
end_error (failed rest) = end_error rest
end_error (fetched m committed rest) = end_error rest

abbrev pub is_for : Bytes → Message → Bool
is_for node m = not (is_blank m) && m.key =s node

consume_loop-eq :
    {S : Type 0} (node : Bytes) (found : List Message) (feed : Feed) (s : S) (t : Trace)
    → CommitsSucceed feed
    → (consume_loop node found feed s t).outcome
      ≡ ok (record {
        messages = found ++ select (is_for node) (offered feed);
        error = end_error feed;
      })
unfolding consume_loop ◌>>=◌ on_error
consume_loop-eq node found expired s t h = rw append-nil
consume_loop-eq node found deadline s t h = rw append-nil
consume_loop-eq node found (failed rest) s t h = consume_loop-eq node found rest s _ h
consume_loop-eq node found (fetched m committed rest) s t h = ground (
  arith,
  h.0,
  consume_loop-eq node found rest s (fetch ∷ t) h.1,
  consume_loop-eq node found rest s (commit m ∷ fetch ∷ t) h.1,
  consume_loop-eq node (found ++ m ∷ []) rest s (commit m ∷ fetch ∷ t) h.1,
  append_assoc found (m ∷ []) (select (is_for node) (offered rest)),
)

-- Where every commit succeeds, ConsumeMessage returns the offered messages that have this node for
-- their key and a value, in the order of the broker, and no other. It returns an error beside them
-- if, and only if, the loop finds its context done before a fetch.
pub consume_message-eq :
    (env : Env) {S : Type 0} (node : Bytes) (s : S) (t : Trace)
    → CommitsSucceed (env.feed t my_topic)
    → (consume_message env node s t).outcome
      ≡ ok (record {
        messages = select (is_for node) (offered (env.feed t my_topic));
        error = end_error (env.feed t my_topic);
      })
unfolding consume_message ◌>>=◌
consume_message-eq env node s t h = consume_loop-eq node [] (env.feed t my_topic) s t h
