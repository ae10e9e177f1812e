-- ===== src/Pipeline/Views.antt =====
-- ProcessPodsMap as an abstract map: what its entries are, not how they are kept. The code is related
-- to itself on any two tables with the same entries.
pub mod Reconciled
pub mod Deployed
pub mod Handlers
use checkpoint_operator.Base.{
  ℕ, zero, suc, List, [], ◌∷◌, ◌++◌, Option, none, some, Bool, true, false, Bytes, ◌=s◌,
  if◌then◌else◌, ◌≡◌, refl, ap, arith,
}
use checkpoint_operator.Outcome.{Error, Outcome, ok, err, panic}
use checkpoint_operator.Cluster.{
  Env, Container, Feed, expired, deadline, failed, fetched, Job, Message, MigrationSpec, NewPod,
  Pod, Query, Trace,
}
use checkpoint_operator.Proc.{Proc, gets, modify, call}
use checkpoint_operator.Proc.Respects.{
  Alike, Respects, Respects-give, Respects-return, Respects-fail, Respects-call, Respects-gets,
  Respects-bind, Respects-on_error, Respects-if, Respects-modify, Respects-when, respects_rules,
}
use checkpoint_operator.Util.Globals.{
  MigrationInfo, PodsMap, lookup, remove, insert, contains, fill_in_global_variables, lookup-remove,
  lookup-insert,
}
use checkpoint_operator.Util.Clientset.{create_client_set, through}
use checkpoint_operator.Webhook.{
  client_or_error, pod_exists, deployment_exists, check_pod_name, not_processed, check_fields,
  check_targets, check_processed, validate_migration,
}

-- The same entries, in whatever order, and with whatever is hidden behind others.
abbrev pub SameView : PodsMap → PodsMap → Type 0
SameView s s' = (k : Bytes) → lookup k s ≡ lookup k s'

pub remove-SameView :
    (j : Bytes) (s s' : PodsMap) → SameView s s' → SameView (remove j s) (remove j s')
remove-SameView j s s' h k = rw (lookup-remove j k s, lookup-remove j k s', h k) refl

pub insert-SameView :
    (j : Bytes) (v : MigrationInfo) (s s' : PodsMap)
    → SameView s s'
    → SameView (insert j v s) (insert j v s')
insert-SameView j v s s' h k = rw (lookup-insert j k v s, lookup-insert j k v s', h k) refl

module _ (env : Env) where
  abbrev pub Blind : {A : Type 0} → Proc PodsMap A → Type 0
  Blind m = Respects SameView m

  pub client-Respects : Blind (create_client_set env)
  unfolding create_client_set
  client-Respects = search respects_rules depth 8

  pod_exists-Respects : (n p : Bytes) → Blind (pod_exists env n p)
  unfolding pod_exists
  pod_exists-Respects n p = search respects_rules

  deployment_exists-Respects : (n p : Bytes) → Blind (deployment_exists env n p)
  unfolding deployment_exists
  deployment_exists-Respects n p = search respects_rules

  check_pod_name-Respects :
      (c : Outcome (Unit {0})) (spec : MigrationSpec) → Blind (check_pod_name env c spec)
  unfolding check_pod_name
  check_pod_name-Respects (ok a) spec = pod_exists-Respects spec.namespace spec.pod_name
  check_pod_name-Respects (err e) spec = search respects_rules
  check_pod_name-Respects panic spec = search respects_rules

  through-Respects :
      (c : Outcome (Unit {0})) {A : Type 0} (m : Proc PodsMap A) → Blind m → Blind (through c m)
  unfolding through
  through-Respects (ok a) m k = k
  through-Respects (err e) m k = search respects_rules
  through-Respects panic m k = search respects_rules

  client_or_error-Respects : Blind (client_or_error env)
  unfolding client_or_error
  client_or_error-Respects = search (respects_rules, client-Respects)

  contains-Respects : (n : Bytes) → Blind (gets (λ m. contains n m))
  contains-Respects n = Respects-gets _ (λ s s' h. rw (h n) refl)

  not_processed-Respects : (n : Bytes) (e : Error) → Blind (not_processed env n e)
  unfolding not_processed
  not_processed-Respects n e = search (respects_rules, contains-Respects)

  check_fields-Respects : (spec : MigrationSpec) → Blind (check_fields env spec)
  unfolding check_fields
  check_fields-Respects spec = search respects_rules depth 9

  ruleset blind = (
    respects_rules, client-Respects, pod_exists-Respects, deployment_exists-Respects,
    through-Respects, check_pod_name-Respects, client_or_error-Respects, not_processed-Respects,
    check_fields-Respects,
  )

  check_targets-Respects :
      (c : Outcome (Unit {0})) (spec : MigrationSpec) → Blind (check_targets env c spec)
  unfolding check_targets
  check_targets-Respects c spec = search blind depth 8

  check_processed-Respects : (spec : MigrationSpec) → Blind (check_processed env spec)
  unfolding check_processed
  check_processed-Respects spec = search blind depth 8

  pub validate_migration-Respects : (spec : MigrationSpec) → Blind (validate_migration env spec)
  unfolding validate_migration
  validate_migration-Respects spec =
      search (blind, check_targets-Respects, check_processed-Respects) depth 8
