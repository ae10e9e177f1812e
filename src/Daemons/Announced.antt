-- ===== src/Daemons/Announced.antt =====
-- The order of the calls, where several goroutines make them.
use checkpoint_operator.Base.{List, [], ◌∷◌, ◌++◌, Bytes, All, ◌=s◌, ◌≡◌, refl, ◌⊎◌, inl, inr}
use checkpoint_operator.Outcome.{Outcome, ok, err, panic}
use checkpoint_operator.Cluster.{
  Env, Call, Pod, NewPod, Message, Feed, expired, deadline, failed, fetched, Trace, create_pod,
  write,
}
use checkpoint_operator.Proc.{call, modify}
use checkpoint_operator.Util.Globals.{PodsMap, MigrationInfo}
use checkpoint_operator.Kafka.{delete_pod_topic, delete_message, is_blank}
use checkpoint_operator.Threads.{Prog, atomic}
use checkpoint_operator.Threads.Pool.{Reach}
use checkpoint_operator.Threads.Safe.{
  Extends, AnyValue, Given, Safe, Safe-atomic, Safe-bind, Safe-bind_with, Safe-call, Safe-done,
  Safe-err, Safe-if, nothing_asked, Safe-modify, Safe-ok, Safe-on_error, Safe-on_error_with,
  safe_rules,
}
use checkpoint_operator.Threads.Safe.Pool.{Reach-keeps}
use checkpoint_operator.Daemons.{goroutines}
use checkpoint_operator.Daemons.Code.{
  create_client_set, count_remaining, create_new_pod, check_destination_namespace_exists,
  produce_message_to_different_topics, launch, deploy_from, deploy_message, consume_loop,
  consume_message, deploy_pod_on_new_node,
}

-- The cluster has accepted a pod with this name.
abbrev pub WasCreated : Env → Bytes → Trace → Type 0
WasCreated env name [] = ⊥
WasCreated env name (create_pod namespace p ∷ t) =
    ((p.name ≡ name) × (env.create_pod t namespace p ≡ ok tt)) ⊎ WasCreated env name t
WasCreated env name (c ∷ t) = WasCreated env name t

-- Each message to the topic `delete-pod` comes after the creation of the pod that it names.
abbrev pub AnnouncedAfter : Env → PodsMap → Trace → Type 0
AnnouncedAfter env s [] = Unit
AnnouncedAfter env s (write topic m ∷ t) =
    (topic ≡ delete_pod_topic → WasCreated env m.key t) × AnnouncedAfter env s t
AnnouncedAfter env s (c ∷ t) = AnnouncedAfter env s t

module _ (env : Env) where
  WasCreated-cons :
      (name : Bytes) (c : Call) (t : Trace) → WasCreated env name t → WasCreated env name (c ∷ t)
  WasCreated-cons name (create_pod namespace p) t h = inr h
  WasCreated-cons name _ t h = h

  WasCreated-append :
      (name : Bytes) (calls t : Trace) → WasCreated env name t → WasCreated env name (calls ++ t)
  WasCreated-append name [] t h = h
  WasCreated-append name (c ∷ calls) t h =
      WasCreated-cons name c (calls ++ t) (WasCreated-append name calls t h)

  WasCreated-Extends :
      (name : Bytes) (t u : Trace) → Extends t u → WasCreated env name t → WasCreated env name u
  WasCreated-Extends name t u (calls, e) h = rw e (WasCreated-append name calls t h)

  abbrev Keeping : {A : Type 0} → Prog PodsMap A → Trace → Type 0
  Keeping p t = Safe (AnnouncedAfter env) AnyValue p t

  client-Safe : (t : Trace) → Keeping (create_client_set env) t
  unfolding create_client_set
  client-Safe t = search (safe_rules, Safe-call) depth 12

  count_remaining-Safe : (node : Bytes) (t : Trace) → Keeping (count_remaining env node) t
  unfolding count_remaining
  count_remaining-Safe node t = search (safe_rules, Safe-call, client-Safe) depth 16

  namespace-Safe :
      (name : Bytes) (t : Trace) → Keeping (check_destination_namespace_exists env name) t
  unfolding check_destination_namespace_exists
  namespace-Safe name t = search (safe_rules, Safe-call, client-Safe) depth 12

  accepted :
      (namespace : Bytes) (p : NewPod) (t : Trace) (r : Outcome (Unit {0}))
      → env.create_pod t namespace p ≡ r
      → Given (λ _ u. WasCreated env p.name u) r (create_pod namespace p ∷ t)
  accepted namespace p t (ok a) e = inl (refl, e)
  accepted namespace p t (err x) e = tt
  accepted namespace p t panic e = tt

  create-Safe :
      (p : NewPod) (namespace : Bytes) (t : Trace)
      → Safe
          (AnnouncedAfter env)
          (λ _ u. WasCreated env p.name u)
          (atomic (call (create_pod namespace p) (λ t. env.create_pod t namespace p)))
          t
  unfolding call
  create-Safe p namespace t =
      Safe-atomic _ t
        (λ s u _ i. (i, (create_pod namespace p ∷ [], refl), accepted namespace p u _ refl))

  create_new_pod-Safe :
      (p : NewPod) (namespace : Bytes) (t : Trace)
      → Safe
          (AnnouncedAfter env)
          (λ q u. WasCreated env q.name u)
          (create_new_pod env p namespace)
          t
  unfolding create_new_pod
  create_new_pod-Safe p namespace t = Safe-bind _ _ t (search (safe_rules, client-Safe)) (λ _ u.
      Safe-bind_with {Q = λ _ u. WasCreated env p.name u} _ _ u
        (Safe-on_error_with _ _ _ u (create-Safe p namespace u) (λ e v. Safe-err _ v)
          (λ a v _ q. Safe-ok a v q))
        (λ a v _ q. Safe-ok p v q))

  announce-Safe :
      (name namespace node : Bytes) (t : Trace)
      → WasCreated env name t
      → Keeping (produce_message_to_different_topics env name namespace node) t
  unfolding produce_message_to_different_topics call delete_message
  announce-Safe name namespace node t created = Safe-atomic _ t (λ s u x i. (
    (λ _. WasCreated-Extends name t u x created, i),
    (write delete_pod_topic (delete_message name namespace node) ∷ [], refl),
    nothing_asked _ _,
  ))

  launch-Safe :
      (p : NewPod) (info : MigrationInfo) (node : Bytes) (t : Trace)
      → Keeping (launch env p info node) t
  unfolding launch
  launch-Safe p info node t =
      Safe-bind_with {Q = λ q u. WasCreated env q.name u} _ _ t
        (Safe-on_error_with _ _ _ t (create_new_pod-Safe p info.destination_namespace t)
          (λ e u. Safe-err _ u) (λ q u _ created. Safe-ok q u created))
        (λ q u _ created.
          Safe-on_error _ _ _ u (announce-Safe q.name info.source_namespace node u created)
            (λ e v. Safe-err _ v) (λ a v. Safe-done _ v))

  deploy_from-Safe :
      (pod : Pod) (m : Message) (info : MigrationInfo) (t : Trace)
      → Keeping (deploy_from env pod m info) t
  unfolding deploy_from
  deploy_from-Safe pod m info t =
      search (safe_rules, count_remaining-Safe, namespace-Safe, launch-Safe) depth 12

  forget-Safe : (f : PodsMap → PodsMap) (t : Trace) → Keeping (atomic (modify f)) t
  forget-Safe f t = Safe-modify f t (λ s u i. i)

  deploy_message-Safe : (pod : Pod) (m : Message) (t : Trace) → Keeping (deploy_message env pod m) t
  unfolding deploy_message
  deploy_message-Safe pod m t = search (safe_rules, forget-Safe, deploy_from-Safe) depth 12

  consume_loop-Safe :
      (node : Bytes) (found : List Message) (feed : Feed) (t : Trace)
      → Keeping (consume_loop node found feed) t
  unfolding consume_loop
  consume_loop-Safe node found expired t = Safe-done _ t
  consume_loop-Safe node found deadline t = Safe-done _ t
  consume_loop-Safe node found (failed rest) t =
      Safe-bind _ _ t (Safe-call _ _ t (λ s u i. i)) (λ _ u. consume_loop-Safe node found rest u)
  consume_loop-Safe node found (fetched m committed rest) t =
      let skip = consume_loop-Safe node found rest in
      let keep = consume_loop-Safe node (found ++ m ∷ []) rest in
      Safe-bind _ _ t (Safe-call _ _ t (λ s u i. i)) (λ _ u.
        Safe-if (is_blank m) _ _ u
          (λ _.
            Safe-on_error _ _ _ u (Safe-call _ _ u (λ s v i. i)) (λ _ v. skip v) (λ _ v. skip v))
          (λ _.
            Safe-if (m.key =s node) _ _ u
              (λ _.
                Safe-on_error _ _ _ u (Safe-call _ _ u (λ s v i. i)) (λ _ v. Safe-done _ v)
                  (λ _ v. keep v))
              (λ _. skip u)))

  consume_message-Safe : (node : Bytes) (t : Trace) → Keeping (consume_message env node) t
  unfolding consume_message
  consume_message-Safe node t = search (safe_rules, consume_loop-Safe) depth 8

  deploy_pod_on_new_node-Safe : (pod : Pod) (t : Trace) → Keeping (deploy_pod_on_new_node env pod) t
  unfolding deploy_pod_on_new_node
  deploy_pod_on_new_node-Safe pod t =
      search (safe_rules, consume_message-Safe, deploy_message-Safe) depth 12

  goroutines-Safe :
      (pods : List Pod) (t : Trace)
      → All (λ p. Safe (AnnouncedAfter env) AnyValue p t) (goroutines env pods)
  goroutines-Safe [] t = tt
  goroutines-Safe (pod ∷ pods) t = (deploy_pod_on_new_node-Safe pod t, goroutines-Safe pods t)

-- If it is so before, then however the goroutines for the registry pods are interleaved, and however
-- far they have come, each message to the topic `delete-pod` comes after a creation of the pod that
-- it names, which the cluster accepted.
pub goroutines_announce :
    (env : Env) (pods : List Pod) {ps : List (Prog PodsMap (Unit {0}))} {s s' : PodsMap}
    {t t' : Trace}
    → Reach (goroutines env pods) s t ps s' t'
    → AnnouncedAfter env s t
    → AnnouncedAfter env s' t'
goroutines_announce env pods {t} r h =
    Reach-keeps (AnnouncedAfter env) r (goroutines-Safe env pods t) h
