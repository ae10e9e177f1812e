-- ===== src/Webhook/Reads.antt =====
-- Validation only reads: the cluster, the broker and ProcessPodsMap are as before.
use checkpoint_operator.Base.{◌∷◌, false, ◌≡◌, refl, Bytes}
use checkpoint_operator.Outcome.{Error, Outcome, ok, err, panic}
use checkpoint_operator.Cluster.{Env, Call, Trace, MigrationSpec}
use checkpoint_operator.Cluster.Reads.{is_write, writes, Untouched}
use checkpoint_operator.Proc.Keeps.{Keeps, keeps_rules}
use checkpoint_operator.Util.Globals.{PodsMap}
use checkpoint_operator.Util.Clientset.Reads.{read-P, create_client_set-Keeps, through-Keeps}
use checkpoint_operator.Webhook.{
  client_or_error, pod_exists, deployment_exists, check_pod_name, not_processed, check_fields,
  check_targets, check_processed, validate_migration,
}

-- What every reading call keeps is kept by validation.
module _ {P : PodsMap → Trace → Type 0} (env : Env)
    (reads : (c : Call) (s : PodsMap) (t : Trace) → is_write c ≡ false → P s t → P s (c ∷ t)) where
  pod_exists-P : (n p : Bytes) → Keeps P (pod_exists env n p)
  unfolding pod_exists
  pod_exists-P n p = search (keeps_rules, read-P reads)

  deployment_exists-P : (n p : Bytes) → Keeps P (deployment_exists env n p)
  unfolding deployment_exists
  deployment_exists-P n p = search (keeps_rules, read-P reads)

  check_pod_name-P :
      (c : Outcome (Unit {0})) (spec : MigrationSpec) → Keeps P (check_pod_name env c spec)
  unfolding check_pod_name
  check_pod_name-P (ok a) spec = pod_exists-P spec.namespace spec.pod_name
  check_pod_name-P (err e) spec = search keeps_rules
  check_pod_name-P panic spec = search keeps_rules

  client_or_error-P : Keeps P (client_or_error env)
  unfolding client_or_error
  client_or_error-P = search (keeps_rules, create_client_set-Keeps reads)

  not_processed-P : (n : Bytes) (e : Error) → Keeps P (not_processed env n e)
  unfolding not_processed
  not_processed-P n e = search keeps_rules

  check_fields-P : (spec : MigrationSpec) → Keeps P (check_fields env spec)
  unfolding check_fields
  check_fields-P spec = search keeps_rules depth 9

  ruleset reading = (
    keeps_rules, pod_exists-P, deployment_exists-P, through-Keeps, check_pod_name-P,
    client_or_error-P, not_processed-P, check_fields-P,
  )

  check_targets-P :
      (c : Outcome (Unit {0})) (spec : MigrationSpec) → Keeps P (check_targets env c spec)
  unfolding check_targets
  check_targets-P c spec = search reading depth 8

  check_processed-P : (spec : MigrationSpec) → Keeps P (check_processed env spec)
  unfolding check_processed
  check_processed-P spec = search reading depth 8

  pub validate_migration-Keeps : (spec : MigrationSpec) → Keeps P (validate_migration env spec)
  unfolding validate_migration
  validate_migration-Keeps spec = search (reading, check_targets-P, check_processed-P) depth 8

module _ (env : Env) {s₀ : PodsMap} {w : Trace} where
  read-Untouched :
      (c : Call) (s : PodsMap) (t : Trace)
      → is_write c ≡ false
      → Untouched s₀ w s t
      → Untouched s₀ w s (c ∷ t)
  read-Untouched c s t e (same, kept) = (same, rw e kept)

  pub client_or_error-Untouched : Keeps (Untouched s₀ w) (client_or_error env)
  client_or_error-Untouched = client_or_error-P env read-Untouched

  pub not_processed-Untouched :
      (n : Bytes) (e : Error) → Keeps (Untouched s₀ w) (not_processed env n e)
  not_processed-Untouched = not_processed-P env read-Untouched

  pub check_fields-Untouched :
      (spec : MigrationSpec) → Keeps (Untouched s₀ w) (check_fields env spec)
  check_fields-Untouched = check_fields-P env read-Untouched

  pub check_targets-Untouched :
      (c : Outcome (Unit {0})) (spec : MigrationSpec)
      → Keeps (Untouched s₀ w) (check_targets env c spec)
  check_targets-Untouched = check_targets-P env read-Untouched

  validate_migration-Untouched :
      (spec : MigrationSpec) → Keeps (Untouched s₀ w) (validate_migration env spec)
  validate_migration-Untouched = validate_migration-Keeps env read-Untouched

-- Whatever the outcome, validation leaves ProcessPodsMap as it is, and makes no call that changes
-- the cluster or the broker.
pub validate_migration_reads :
    (env : Env) (spec : MigrationSpec) (s : PodsMap) (t : Trace)
    → ((validate_migration env spec s t).globals ≡ s)
      × (writes (validate_migration env spec s t).trace ≡ writes t)
validate_migration_reads env spec s t = (validate_migration-Untouched env spec).at s t (refl, refl)
