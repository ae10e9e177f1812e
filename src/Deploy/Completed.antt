-- ===== src/Deploy/Completed.antt =====
-- A whole run for a registry pod: each message that is offered for its node becomes a pod.
use checkpoint_operator.Base.{List, [], ◌∷◌, none, some, Bytes, select, ◌≡◌, refl, ◌∙◌, ap, arith}
use checkpoint_operator.Outcome.{ok}
use checkpoint_operator.Cluster.{Env, Pod, Message, Trace, create_pod}
use checkpoint_operator.Cluster.Reads.{writes}
use checkpoint_operator.Proc.{Run, give, for_each, continue, ◌>>=◌}
use checkpoint_operator.Proc.Inversion.{bind_from}
use checkpoint_operator.Util.Globals.{PodsMap, MigrationInfo, lookup, remove}
use checkpoint_operator.Kafka.{Batch, consume_message, my_topic}
use checkpoint_operator.Kafka.Consumed.{
  CommitsSucceed, is_for, offered, end_error, consume_message-eq,
}
use checkpoint_operator.Kafka.Commits.{consume_message-Keeps}
use checkpoint_operator.Deploy.{
  old_pod_name, deploy_message, deploy_pod_on_new_node, messages_or_error, unless_error,
  migrate_pod,
}
use checkpoint_operator.Deploy.Entries.{deploy_message_map}
use checkpoint_operator.Deploy.Launched.{Deployed}
use checkpoint_operator.Deploy.Delivered.{Serves, deploy_message_delivers}

-- Each message finds an entry of its own, and the cluster and the broker serve it.
abbrev pub Awaited : Env → List Message → PodsMap → Type 0
Awaited env [] s = Unit
Awaited env (m ∷ ms) s =
    ((info : MigrationInfo) × (lookup (old_pod_name m.value) s ≡ some info) × Serves env m info)
    × Awaited env ms (remove (old_pod_name m.value) s)

-- The table once the messages' entries are taken out.
abbrev pub remove_all : List Message → PodsMap → PodsMap
remove_all [] s = s
remove_all (m ∷ ms) s = remove_all ms (remove (old_pod_name m.value) s)

-- The names of the pods whose creation a trace asks for, the newest first.
abbrev pub launched : Trace → List Bytes
launched [] = []
launched (create_pod namespace p ∷ t) = p.name ∷ launched t
launched (c ∷ t) = launched t

-- The names of the messages' pods, the last message first, before other names.
abbrev pub with_names : List Message → List Bytes → List Bytes
with_names [] names = names
with_names (m ∷ ms) names = with_names ms (m.value ∷ names)

-- What is told of a run from given variables and given names of launched pods.
abbrev pub Completes : List Message → PodsMap → List Bytes → Run PodsMap (Unit {0}) → Type 0
Completes ms s names r =
    (r.outcome ≡ ok tt)
    × (r.globals ≡ remove_all ms s)
    × (launched (writes r.trace) ≡ with_names ms names)

launched-Deployed :
    (env : Env) (pod : Pod) (m : Message) (info : MigrationInfo) (before after : Trace)
    → Deployed env pod m info before after
    → launched after ≡ m.value ∷ launched before
unfolding migrate_pod
launched-Deployed env pod m info before after d =
    ground (arith, d.asked, d.namespace, d.continues.name_given)

module _ (env : Env) (pod : Pod) where
  for_each-Completes :
      (ms : List Message) (s : PodsMap) (t : Trace)
      → Awaited env ms s
      → Completes ms s (launched (writes t)) (for_each ms (deploy_message env pod) s t)
  unfolding for_each
  for_each-Completes [] s t h = (refl, refl, refl)
  for_each-Completes (m ∷ ms) s t ((info, entry, serves), rest) =
      let r = deploy_message env pod m s t in
      let (done, deployed) = deploy_message_delivers env pod m info s t entry serves in
      let names = launched-Deployed env pod m info (writes t) (writes r.trace) deployed in
      let map = deploy_message_map env pod m s t in
      let run =
        bind_from (deploy_message env pod m) (λ _. for_each ms (deploy_message env pod)) s t tt
          done in
      let (d, g, l) = for_each-Completes ms (remove (old_pod_name m.value) s) r.trace rest in
      rw (run, map) (d, g, l ∙ ap (with_names ms) names)

  -- Where every commit succeeds and the consumer's time ends within a fetch, and each message that is
  -- offered for the pod's node finds an entry of its own and is served, the run succeeds: it creates
  -- one pod for each of these messages, in their order, and takes just their entries out of
  -- ProcessPodsMap.
  pub deploy_pod_on_new_node-Completes :
      (s : PodsMap) (t : Trace)
      → CommitsSucceed (env.feed t my_topic)
      → end_error (env.feed t my_topic) ≡ none
      → Awaited env (select (is_for pod.node_name) (offered (env.feed t my_topic))) s
      → Completes
          (select (is_for pod.node_name) (offered (env.feed t my_topic)))
          s
          (launched (writes t))
          (deploy_pod_on_new_node env pod s t)
  unfolding deploy_pod_on_new_node
  deploy_pod_on_new_node-Completes s t commits ends awaited =
      let node = pod.node_name in
      let ms = select (is_for node) (offered (env.feed t my_topic)) in
      let r = consume_message env node s t in
      let kept : (r.globals ≡ s) × (launched (writes r.trace) ≡ launched (writes t)) =
        (consume_message-Keeps {node = node}
            {P = λ s' t'. (s' ≡ s) × (launched (writes t') ≡ launched (writes t))} (λ _ _ h. h)
            (λ _ _ _ _ h. h) env).at
          s t (refl, refl) in
      let batch : Batch = record { messages = ms; error = end_error (env.feed t my_topic) } in
      let taken : messages_or_error batch ≡ ok ms =
        unfold messages_or_error unless_error in rw ends refl in
      let run : deploy_pod_on_new_node env pod s t
          ≡ (give (messages_or_error batch) >>= λ ms. for_each ms (deploy_message env pod))
              r.globals r.trace =
        bind_from (consume_message env node) _ s t batch
          (consume_message-eq env node s t commits) in
      let loop : (give (messages_or_error batch) >>= λ ms. for_each ms (deploy_message env pod))
            r.globals r.trace
          ≡ for_each ms (deploy_message env pod) s r.trace =
        unfold ◌>>=◌ give in rw (taken, continue) (rw kept.0 refl) in
      let (d, g, l) = for_each-Completes ms s r.trace awaited in
      rw (run, loop) (d, g, l ∙ ap (with_names ms) kept.1)
