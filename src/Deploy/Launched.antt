-- ===== src/Deploy/Launched.antt =====
-- What a successful round of the loop over the messages has done, and what an error of the consumer
-- leaves undone.
use checkpoint_operator.Base.{
  ◌∷◌, ◌++◌, some, Bytes, codes, ◌≡◌, refl, ◌∙◌, ap, ◌⊎◌, inl, inr, arith, Option-cases,
}
use checkpoint_operator.Outcome.{ok, wrapped}
use checkpoint_operator.Cluster.{
  Env, Pod, NewPod, Message, Trace, create_pod, create_namespace, write,
}
use checkpoint_operator.Cluster.Reads.{writes, Untouched}
use checkpoint_operator.Proc.{continue, on_error, or_fail, ◌>>=◌, modify}
use checkpoint_operator.Proc.Keeps.{Keeps, Keeps-call, keeps_rules}
use checkpoint_operator.Proc.Inversion.{bind-ok, bind_from, or_fail_trace, or_fail-ok}
use checkpoint_operator.Util.Globals.{PodsMap, MigrationInfo, lookup, remove}
use checkpoint_operator.Util.Clientset.{create_client_set}
use checkpoint_operator.Util.Clientset.Reads.{create_client_set-Untouched}
use checkpoint_operator.Util.HostPort.{get_pod_host_port}
use checkpoint_operator.Util.HostPort.Published.{address, get_pod_host_port-eq}
use checkpoint_operator.Kafka.{
  delete_pod_topic, delete_message, produce_message_to_different_topics, send,
}
use checkpoint_operator.Deploy.Counted.{IsLeft, count_remaining-IsLeft}
use checkpoint_operator.Deploy.{
  Remaining, old_pod_name, count_remaining, create_new_pod, check_destination_namespace_exists,
  launch, deploy_from, info_or_error, deploy_message, migrate_pod,
}

module _ (env : Env) {S : Type 0} where
  count_remaining-Untouched :
      {s₀ : S} {w : Trace} (node : Bytes) → Keeps (Untouched s₀ w) (count_remaining env node)
  unfolding count_remaining
  count_remaining-Untouched node =
      search (keeps_rules, Keeps-call, create_client_set-Untouched) depth 12

  -- Only the namespace may have been created.
  namespace-writes :
      (name : Bytes) (s : S) (t : Trace)
      → let r = check_destination_namespace_exists env name s t in
        (writes r.trace ≡ writes t) ⊎ (writes r.trace ≡ create_namespace name ∷ writes t)
  unfolding check_destination_namespace_exists ◌>>=◌ on_error create_client_set
  namespace-writes name s t = ground arith

  create_new_pod-writes :
      (p : NewPod) (n : Bytes) (s : S) (t : Trace) (q : NewPod)
      → (create_new_pod env p n s t).outcome ≡ ok q
      → (q ≡ p) × (writes (create_new_pod env p n s t).trace ≡ create_pod n p ∷ writes t)
  unfolding create_new_pod ◌>>=◌ on_error create_client_set
  create_new_pod-writes p n s t q h = ground arith

  launch-writes :
      (p : NewPod) (info : MigrationInfo) (node : Bytes) (s : S) (t : Trace)
      → (launch env p info node s t).outcome ≡ ok tt
      → writes (launch env p info node s t).trace
        ≡ write delete_pod_topic (delete_message p.name info.source_namespace node)
          ∷ create_pod info.destination_namespace p
          ∷ writes t
  unfolding launch ◌>>=◌ on_error produce_message_to_different_topics send create_new_pod
      create_client_set
  launch-writes p info node s t h = ground arith

-- The new pod has the name that the message gives, its image from the registry pod's address, and the
--  node of the entry; it asks for a millicore and 4 MiB, and may use a fifth of what is left.
pub record Continues (env : Env) (registry : Pod) (name : Bytes) (left : Remaining)
    (info : MigrationInfo) (new_pod : NewPod) : Type 0 where
  pub name_given : new_pod.name ≡ name
  pub image : new_pod.image ≡ address registry ++ b'/' ∷ name ++ codes ":latest"
  pub node : new_pod.node_name ≡ info.destination_node
  pub cpu_request : new_pod.cpu_request_milli ≡ 1
  pub memory_request : new_pod.memory_request ≡ 4194304
  pub cpu_limit : new_pod.cpu_limit_milli ≡ env.fifth left.cpu
  pub memory_limit : new_pod.memory_limit ≡ env.fifth left.memory

-- What a round that succeeds has asked of the cluster and the broker, newest first: the message to
-- the restore daemon, the pod, and perhaps the namespace.
pub record Deployed (env : Env) (pod : Pod) (m : Message) (info : MigrationInfo)
    (before after : Trace) : Type 0 where
  pub left : Remaining
  pub prepared : Trace
  pub new_pod : NewPod
  pub is_left : IsLeft env m.key left
  pub continues : Continues env pod m.value left info new_pod
  pub asked :
      after
      ≡ write delete_pod_topic (delete_message m.value info.source_namespace m.key)
        ∷ create_pod info.destination_namespace new_pod
        ∷ prepared
  pub namespace :
      (prepared ≡ before) ⊎ (prepared ≡ create_namespace info.destination_namespace ∷ before)

module _ (env : Env) where
  -- Its rest, from the entry on.
  pub deploy_from-Deployed :
      {S : Type 0} (pod : Pod) (m : Message) (info : MigrationInfo) (s : S) (t : Trace)
      → (deploy_from env pod m info s t).outcome ≡ ok tt
      → Deployed env pod m info (writes t) (writes (deploy_from env pod m info s t).trace)
  unfolding deploy_from migrate_pod
  deploy_from-Deployed pod m info s t h =
      let location = get_pod_host_port pod ++ b'/' ∷ m.value ++ codes ":latest" in
      let counting =
        or_fail (count_remaining env m.key)
          (λ e. wrapped "unable to count the remaining cpu and memory" e) in
      let checking =
        or_fail (check_destination_namespace_exists env info.destination_namespace)
          (λ e. wrapped "unable to check destination namespace" e) in
      let r₁ = counting s t in
      let r₂ = checking r₁.globals r₁.trace in
      let (left, counted, h₁) = bind-ok counting _ s t h in
      let (_, checked, h₂) = bind-ok checking _ r₁.globals r₁.trace h₁ in
      let p = migrate_pod env m.value location left info in
      let run : deploy_from env pod m info s t ≡ launch env p info m.key r₂.globals r₂.trace =
        bind_from counting _ s t left counted
        ∙ bind_from checking _ r₁.globals r₁.trace tt checked in
      let kept =
        (count_remaining-Untouched env {s₀ = s} {w = writes t} m.key).at s t (refl, refl) in
      let same₁ : writes r₁.trace ≡ writes t = ap writes (or_fail_trace _ _ s t) ∙ kept.1 in
      let same₂ = ap writes (
        or_fail_trace (check_destination_namespace_exists env info.destination_namespace)
          (λ e. wrapped "unable to check destination namespace" e) r₁.globals r₁.trace) in
      record {
        left = left;
        prepared = writes r₂.trace;
        new_pod = p;
        is_left = count_remaining-IsLeft env m.key s t left (or_fail-ok _ _ s t counted);
        continues = record {
          name_given = refl;
          image = ap (λ a. a ++ b'/' ∷ m.value ++ codes ":latest") (get_pod_host_port-eq pod);
          node = refl;
          cpu_request = refl;
          memory_request = refl;
          cpu_limit = refl;
          memory_limit = refl;
        };
        asked = rw run (launch-writes env p info m.key r₂.globals r₂.trace h₂);
        namespace = ground (
          arith,
          same₁,
          same₂,
          namespace-writes env info.destination_namespace r₁.globals r₁.trace,
        );
      }

  -- A round that succeeds had an entry for its pod, and has written just this: the new pod, directly
  -- after it the message that tells the restore daemon, and before it at most the namespace of the
  -- entry. The new pod has the name of the message, the image of that name at the registry pod's
  -- address, with its last container's first port, and the entry's node; it asks for a millicore and
  -- 4 MiB, and its limits are a fifth of what the message's node can allocate and does not use.
  pub deploy_message-Deployed :
      (pod : Pod) (m : Message) (s : PodsMap) (t : Trace)
      → (deploy_message env pod m s t).outcome ≡ ok tt
      → (info : MigrationInfo) × (lookup (old_pod_name m.value) s ≡ some info)
        × Deployed env pod m info (writes t) (writes (deploy_message env pod m s t).trace)
  unfolding deploy_message ◌>>=◌ modify info_or_error
  deploy_message-Deployed pod m s t h = elim (Option-cases (lookup (old_pod_name m.value) s)) [
    | inl e ↦ cc (rw (e, info_or_error, continue) at h)
    | inr (info, e) ↦ (
      info,
      e,
      rw (e, info_or_error, continue)
          (deploy_from-Deployed pod m info (remove (old_pod_name m.value) s) t
            (rw (e, info_or_error, continue) at h)),
    )
  ]
