-- ===== src/Kafka/Commits.antt =====
-- Which messages a consumer takes off the broker.
use checkpoint_operator.Base.{
  List, [], ◌∷◌, ◌++◌, true, Bytes, ◌=s◌, =s_iff, ◌≡◌, ◌⊎◌, inl, inr, All,
}
use checkpoint_operator.Outcome.{Outcome, ok}
use checkpoint_operator.Cluster.{
  Env, Feed, expired, deadline, failed, fetched, Message, Trace, fetch, commit,
}
use checkpoint_operator.Proc.{call}
use checkpoint_operator.Proc.Keeps.{
  Keeps, Keeps-call, Keeps-bind, Keeps-if, Keeps-on_error, Keeps-return, Keeps-observe,
}
use checkpoint_operator.Kafka.{is_blank, consume_loop, consume_message}

-- The messages that a trace commits, the newest first.
abbrev pub committed_in : Trace → List Message
committed_in [] = []
committed_in (commit m ∷ t) = m ∷ committed_in t
committed_in (c ∷ t) = committed_in t

-- A message that a consumer may commit: of its node, or with an empty key or value.
abbrev pub IsTakeable : Bytes → Message → Type 0
IsTakeable node m = (m.key ≡ node) ⊎ (is_blank m ≡ true)

abbrev Takes : {S : Type 0} → Bytes → S → Trace → Type 0
Takes node s t = All (IsTakeable node) (committed_in t)

-- An invariant that a fetch keeps, and the commit of a message that may be taken, is kept by the
-- consumer.
module _ {S : Type 0} {node : Bytes} {P : S → Trace → Type 0}
    (fetches : (s : S) (t : Trace) → P s t → P s (fetch ∷ t))
    (commits : (m : Message) (s : S) (t : Trace)
      → IsTakeable node m
      → P s t
      → P s (commit m ∷ t)) where
  commit-Keeps :
      (m : Message) (answer : Outcome (Unit {0}))
      → IsTakeable node m
      → Keeps P (call (commit m) (λ _. answer))
  commit-Keeps m answer p = Keeps-call _ _ (λ s t h. commits m s t p h)

  fetch-Keeps : Keeps P (call fetch (λ _. ok tt))
  fetch-Keeps = Keeps-call _ _ fetches

  consume_loop-Keeps : (found : List Message) (feed : Feed) → Keeps P (consume_loop node found feed)
  unfolding consume_loop
  consume_loop-Keeps found expired = Keeps-return _
  consume_loop-Keeps found deadline = Keeps-return _
  consume_loop-Keeps found (failed rest) =
      Keeps-bind _ _ fetch-Keeps (λ _. consume_loop-Keeps found rest)
  consume_loop-Keeps found (fetched m committed rest) =
      let skip = consume_loop-Keeps found rest in
      let keep = consume_loop-Keeps (found ++ m ∷ []) rest in
      Keeps-bind _ _ fetch-Keeps (λ _.
        Keeps-if (is_blank m) _ _
          (λ blank.
            Keeps-on_error _ _ _ (commit-Keeps m committed (inr blank)) (λ _. skip) (λ _. skip))
          (λ _.
            Keeps-if (m.key =s node) _ _
              (λ same.
                Keeps-on_error _ _ _ (commit-Keeps m committed (inl ((=s_iff m.key node).0 same)))
                  (λ e. Keeps-return _) (λ _. keep))
              (λ _. skip)))

  pub consume_message-Keeps : (env : Env) → Keeps P (consume_message env node)
  unfolding consume_message
  consume_message-Keeps env = Keeps-bind _ _ (Keeps-observe _) (λ feed. consume_loop-Keeps [] feed)

-- If it is so in the trace before the run, then whatever the broker offers and however the
-- commits end, the trace commits no message of another node, but for those with an empty key or
-- value.
pub consume_message_commits :
    (env : Env) {S : Type 0} (node : Bytes) (s : S) (t : Trace)
    → All (IsTakeable node) (committed_in t)
    → All (IsTakeable node) (committed_in (consume_message env node s t).trace)
consume_message_commits env node s t h =
    (consume_message-Keeps {P = Takes node} (λ s t h. h) (λ m s t p h. (p, h)) env).at s t h
