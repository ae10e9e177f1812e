-- ===== src/Deploy/Entries.antt =====
-- What deploying does to ProcessPodsMap.
use checkpoint_operator.Base.{[], ◌∷◌, none, Bytes, ◌≡◌, refl, sym, arith, inl, inr, Option-cases}
use checkpoint_operator.Outcome.{Outcome}
use checkpoint_operator.Cluster.{Env, Call, Pod, NewPod, Message, Trace}
use checkpoint_operator.Proc.{call, modify, continue, ◌>>=◌}
use checkpoint_operator.Proc.Keeps.{Keeps, Keeps-call, keeps_rules}
use checkpoint_operator.Util.Globals.{PodsMap, MigrationInfo, lookup, remove}
use checkpoint_operator.Util.Clientset.{create_client_set}
use checkpoint_operator.Kafka.{produce_message_to_different_topics, send}
use checkpoint_operator.Deploy.{
  old_pod_name, count_remaining, create_new_pod, check_destination_namespace_exists, launch,
  deploy_from, info_or_error, deploy_message,
}

-- The variables are `s₀`.
abbrev pub Same {ℓ} : {S : Type ℓ} → S → S → Trace → Type ℓ
Same s₀ s t = s ≡ s₀

module _ (env : Env) {S : Type 0} {s₀ : S} where
  call-Same : {A : Type 0} (c : Call) (f : Trace → Outcome A) → Keeps (Same s₀) (call c f)
  call-Same c f = Keeps-call c f (λ s t h. h)

  create_client_set-Same : Keeps (Same s₀) (create_client_set env)
  unfolding create_client_set
  create_client_set-Same = search (keeps_rules, call-Same) depth 8

  create_new_pod-Same : (p : NewPod) (n : Bytes) → Keeps (Same s₀) (create_new_pod env p n)
  unfolding create_new_pod
  create_new_pod-Same p n = search (keeps_rules, call-Same, create_client_set-Same) depth 8

  namespace-Same : (n : Bytes) → Keeps (Same s₀) (check_destination_namespace_exists env n)
  unfolding check_destination_namespace_exists
  namespace-Same n = search (keeps_rules, call-Same, create_client_set-Same) depth 8

  count_remaining-Same : (n : Bytes) → Keeps (Same s₀) (count_remaining env n)
  unfolding count_remaining
  count_remaining-Same n = search (keeps_rules, call-Same, create_client_set-Same) depth 12

  announce-Same : (k n o : Bytes) → Keeps (Same s₀) (produce_message_to_different_topics env k n o)
  unfolding produce_message_to_different_topics send
  announce-Same k n o = call-Same _ _

  launch-Same :
      (p : NewPod) (info : MigrationInfo) (n : Bytes) → Keeps (Same s₀) (launch env p info n)
  unfolding launch
  launch-Same p info n = search (keeps_rules, create_new_pod-Same, announce-Same) depth 8

  deploy_from-Same :
      (pod : Pod) (m : Message) (info : MigrationInfo)
      → Keeps (Same s₀) (deploy_from env pod m info)
  unfolding deploy_from
  deploy_from-Same pod m info =
      search (keeps_rules, launch-Same, namespace-Same, count_remaining-Same) depth 8

-- Removing a name that is not there changes nothing.
remove_missing : (k : Bytes) (s : PodsMap) → lookup k s ≡ none → remove k s ≡ s
unfolding lookup remove
remove_missing k [] h = refl
remove_missing k ((j, v) ∷ s) h = ground (arith, remove_missing k s)

-- Whatever becomes of the deployment, a message takes the entry of its pod out of ProcessPodsMap,
-- and no other.
pub deploy_message_map :
    (env : Env) (pod : Pod) (m : Message) (s : PodsMap) (t : Trace)
    → (deploy_message env pod m s t).globals ≡ remove (old_pod_name m.value) s
unfolding deploy_message ◌>>=◌ info_or_error modify
deploy_message_map env pod m s t = elim (Option-cases (lookup (old_pod_name m.value) s)) [
  | inl e ↦ rw (e, info_or_error, continue) (sym (remove_missing (old_pod_name m.value) s e))
  | inr (info, e) ↦
      rw (e, info_or_error, continue)
        ((deploy_from-Same env {s₀ = remove (old_pod_name m.value) s} pod m info).at _ t refl)
]
