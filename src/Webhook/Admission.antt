-- ===== src/Webhook/Admission.antt =====
-- Which Migrations are accepted.
use checkpoint_operator.Base.{
  ◌≡◌, ◌≢◌, refl, Bytes, List, [], ◌∷◌, is_empty, not, true, false, All, All-map, arith,
}
use checkpoint_operator.Outcome.{Error, ok}
use checkpoint_operator.Cluster.{Env, Trace, MigrationSpec, Pod, in_cluster_config}
use checkpoint_operator.Proc.{◌>>=◌, on_error}
use checkpoint_operator.Proc.Works.{
  Works, Done, Works-bind, Works-on_error, Works-return, Works-call, Works-when, Works-for_each,
}
use checkpoint_operator.Util.Globals.{PodsMap, contains}
use checkpoint_operator.Util.Clientset.{create_client_set, through}
use checkpoint_operator.Webhook.{
  client_or_error, pod_exists, deployment_exists, check_pod_name, not_processed, check_fields,
  check_targets, check_processed, validate_migration,
}
use checkpoint_operator.Cluster.Reads.{writes}
use checkpoint_operator.Webhook.Reads.{check_fields-Untouched}
use checkpoint_operator.Webhook.Verdict.{IsWellFormed, IsFree, check_fields_total}

-- The cluster can be reached, and has what the spec names.
pub record HasTargets (env : Env) (spec : MigrationSpec) : Type 0 where
  pub configured : (t : Trace) → env.in_cluster_config t ≡ ok tt
  pub connected : (t : Trace) → env.new_clientset t ≡ ok tt
  pub pod :
      spec.pod_name ≢ []
      → (t : Trace) → (p : Pod) × (env.get_pod t spec.namespace spec.pod_name ≡ ok p)
  pub deployment :
      spec.deployment ≢ []
      → (t : Trace) → (d : Bytes) × (env.get_deployment t spec.namespace spec.deployment ≡ ok d)
  pub listed :
      All
        (λ name. (t : Trace) → (p : Pod) × (env.get_pod t spec.namespace name ≡ ok p))
        spec.specify

is_empty-ne : {A : Type 0} (xs : List A) → not (is_empty xs) ≡ true → xs ≢ []
is_empty-ne xs h e = ground arith

module _ (env : Env) {s : PodsMap} where
  not_processed-Works :
      (n : Bytes) (e : Error) → contains n s ≡ false → Works s Done (not_processed env n e)
  unfolding not_processed ◌>>=◌
  not_processed-Works n e free = record {
    at = λ t. (tt, ground (arith, free), tt, ground (arith, free));
  }

  pod_exists-Works :
      (n p : Bytes)
      → ((t : Trace) → (pod : Pod) × (env.get_pod t n p ≡ ok pod))
      → Works s Done (pod_exists env n p)
  unfolding pod_exists
  pod_exists-Works n p h =
      Works-on_error _ _ _ (Works-call {Q = λ _. Unit {0}} _ _ (λ t. ((h t).0, (h t).1, tt)))
        (λ a _. Works-return tt tt)

  deployment_exists-Works :
      (n p : Bytes)
      → ((t : Trace) → (d : Bytes) × (env.get_deployment t n p ≡ ok d))
      → Works s Done (deployment_exists env n p)
  unfolding deployment_exists
  deployment_exists-Works n p h =
      Works-on_error _ _ _ (Works-call {Q = λ _. Unit {0}} _ _ (λ t. ((h t).0, (h t).1, tt)))
        (λ a _. Works-return tt tt)

  client-Works :
      (spec : MigrationSpec) → HasTargets env spec → Works s (λ c. c ≡ ok tt) (client_or_error env)
  unfolding client_or_error create_client_set ◌>>=◌ on_error
  client-Works spec h = record {
    at = λ t. (
      ok tt,
      ground (arith, h.configured t, h.connected (in_cluster_config ∷ t)),
      refl,
      ground arith,
    );
  }

  check_fields-Works :
      (spec : MigrationSpec) → IsWellFormed spec → Works s Done (check_fields env spec)
  check_fields-Works spec shape = record {
    at = λ t. (
      tt,
      check_fields_total env spec s t shape,
      tt,
      ((check_fields-Untouched env {s₀ = s} {w = writes t} spec).at s t (refl, refl)).0,
    );
  }

  check_targets-Works :
      (spec : MigrationSpec) → HasTargets env spec → Works s Done (check_targets env (ok tt) spec)
  unfolding check_targets through check_pod_name
  check_targets-Works spec h =
      Works-bind {Q = Done} _ _
        (Works-when _ _ (λ e. pod_exists-Works _ _ (h.pod (is_empty-ne _ e))))
        (λ _ _.
          Works-bind {Q = Done} _ _
            (Works-when _ _ (λ e. deployment_exists-Works _ _ (h.deployment (is_empty-ne _ e))))
            (λ _ _.
              Works-for_each spec.specify _
                (All-map (pod_exists-Works spec.namespace) spec.specify h.listed)))

  check_processed-Works :
      (spec : MigrationSpec) → IsFree spec s → Works s Done (check_processed env spec)
  unfolding check_processed
  check_processed-Works spec free =
      Works-bind {Q = Done} _ _
        (Works-when _ _ (λ e. not_processed-Works _ _ (free.pod (is_empty-ne _ e))))
        (λ _ _.
          Works-for_each spec.specify _
            (All-map (λ n. not_processed-Works n _) spec.specify free.listed))

  validate-Works :
      (spec : MigrationSpec)
      → IsWellFormed spec
      → IsFree spec s
      → HasTargets env spec
      → Works s Done (validate_migration env spec)
  unfolding validate_migration
  validate-Works spec shape free targets =
      Works-bind {Q = Done} _ _ (check_fields-Works spec shape) (λ _ _.
        Works-bind _ _ (client-Works spec targets) (λ c e. rw e (
          Works-bind {Q = Done} _ _ (check_targets-Works spec targets)
            (λ _ _. check_processed-Works spec free))))

-- Where the cluster can be reached and has all that the spec names, a well-formed Migration of pods
-- none of which is being processed is accepted.
pub validate_accepts :
    (env : Env) (spec : MigrationSpec) (s : PodsMap) (t : Trace)
    → IsWellFormed spec
    → IsFree spec s
    → HasTargets env spec
    → (validate_migration env spec s t).outcome ≡ ok tt
validate_accepts env spec s t shape free targets =
    let (_, done, _, _) = (validate-Works env {s = s} spec shape free targets).at t in done
