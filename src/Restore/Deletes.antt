-- ===== src/Restore/Deletes.antt =====
-- What the daemon deletes.
use checkpoint_operator.Base.{◌∷◌, Bytes, true, ◌≡◌, refl, ◌⊎◌, arith}
use checkpoint_operator.Outcome.{Error, ok, err, is_ok}
use checkpoint_operator.Cluster.{
  Env, Pod, Trace, delete_pod, get_pod, in_cluster_config, new_clientset,
}
use checkpoint_operator.Cluster.Reads.{writes}
use checkpoint_operator.Proc.{◌>>=◌, on_error}
use checkpoint_operator.Util.Clientset.{create_client_set, through}
use checkpoint_operator.Util.Clientset.Reads.{create_client_set-Untouched}
use checkpoint_operator.Kafka.{Notice}
use checkpoint_operator.Restore.{after_dash, delete_old_pod, handle_notice}

-- The newest call deletes a pod that the call before it has found.
abbrev pub FoundFirst : Env → Trace → Type 0
FoundFirst env (delete_pod namespace name ∷ get_pod namespace' name' ∷ t) =
    (namespace ≡ namespace') × (name ≡ name') × (is_ok (env.get_pod t namespace name) ≡ true)
FoundFirst env _ = ⊥

module _ (env : Env) {S : Type 0} where
  delete_old_pod_deletes :
      (namespace name : Bytes) (s : S) (t : Trace)
      → let r = delete_old_pod env namespace name s t in
        (writes r.trace ≡ writes t)
        ⊎ ((writes r.trace ≡ delete_pod namespace name ∷ writes t) × FoundFirst env r.trace)
  unfolding delete_old_pod through ◌>>=◌ on_error
  delete_old_pod_deletes namespace name s t =
      let same = (create_client_set-Untouched {s₀ = s} {w = writes t} env).at s t (refl, refl) in
      ground (arith, same.1)

-- Handling a notice changes nothing but, at most, this: the pod of the notice's namespace goes that
-- has the new pod's name less what stands up to the first dash, directly after the cluster has shown
-- it.
pub handle_notice_deletes :
    (env : Env) {S : Type 0} (n : Notice) (s : S) (t : Trace)
    → let r = handle_notice env n s t in
      (writes r.trace ≡ writes t)
      ⊎ ((writes r.trace ≡ delete_pod n.namespace (after_dash n.pod) ∷ writes t)
          × FoundFirst env r.trace)
unfolding handle_notice ◌>>=◌
handle_notice_deletes env n s t =
    ground (arith, delete_old_pod_deletes env n.namespace (after_dash n.pod) s t)

-- Where the cluster can be reached and the pod is found, but its deletion fails, the function
-- still reports that the pod is gone.
delete_old_pod_claims :
    (env : Env) {S : Type 0} (namespace name : Bytes) (s : S) (t : Trace) (p : Pod) (e : Error)
    → let looked = new_clientset ∷ in_cluster_config ∷ t in
      env.in_cluster_config t ≡ ok tt
      → env.new_clientset (in_cluster_config ∷ t) ≡ ok tt
      → env.get_pod looked namespace name ≡ ok p
      → env.delete_pod (get_pod namespace name ∷ looked) namespace name ≡ err e
      → (delete_old_pod env namespace name s t).outcome ≡ ok true
unfolding delete_old_pod create_client_set through ◌>>=◌ on_error
delete_old_pod_claims env namespace name s t p e h₁ h₂ h₃ h₄ = ground arith
