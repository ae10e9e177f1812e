-- ===== src/Webhook.antt =====
-- practice/api/v1alpha1/migration_webhook.go: the admission of Migration objects.
pub mod Reads
pub mod Verdict
pub mod Admission
use checkpoint_operator.Base.{[], ◌∷◌, Bool, not, ◌&&◌, Bytes, is_empty}
use checkpoint_operator.Outcome.{Error, Outcome, ok, err, panic, errorf, wrapped}
use checkpoint_operator.Cluster.{Env, MigrationSpec, get_pod, get_deployment}
use checkpoint_operator.Proc.{
  Proc, call, return, fail, gets, panics, on_error, for_each, when, refuse, or_fail, attempt, ◌>>=◌,
  ◌>>◌,
}
use checkpoint_operator.Util.Globals.{PodsMap, contains}
use checkpoint_operator.Util.Clientset.{create_client_set, through}

abbrev pub pod_is_processed : MigrationSpec → Error
pod_is_processed spec =
    errorf
      "the pod %s in namespace %s is being processed sorry for this moment only one specific pod name among the cluster can be accepted"
      (spec.pod_name ∷ spec.namespace ∷ [])

abbrev pub listed_is_processed : Bytes → Error
listed_is_processed name =
    errorf
      "the pod %s  is being processed. sorry for this moment only one specific pod name among the cluster can be accepted"
      (name ∷ [])

module _ (env : Env) where
  -- createClientSet of this package: the error of NewForConfig is wrapped.
  unfoldable pub client_or_error : Proc PodsMap (Outcome (Unit {0}))
  client_or_error =
      attempt (or_fail (create_client_set env) (λ e. wrapped "unable to create clientset" e))

  unfoldable pub pod_exists : Bytes → Bytes → Proc PodsMap (Unit {0})
  pod_exists namespace name =
      on_error (call (get_pod namespace name) (λ t. env.get_pod t namespace name))
        (λ _.
          fail
            (errorf "your specified pod %s does not exist in namespace %s" (name ∷ namespace ∷ [])))
        (λ _. return tt)

  unfoldable pub deployment_exists : Bytes → Bytes → Proc PodsMap (Unit {0})
  deployment_exists namespace name =
      on_error (call (get_deployment namespace name) (λ t. env.get_deployment t namespace name))
        (λ _. fail (
          errorf "your specified deployment %s does not exist in namespace %s"
            (name ∷ namespace ∷ [])))
        (λ _. return tt)

  -- The first `if` of the source uses the error of createClientSet; the other two do not.
  unfoldable pub check_pod_name : Outcome (Unit {0}) → MigrationSpec → Proc PodsMap (Unit {0})
  check_pod_name (ok _) spec = pod_exists spec.namespace spec.pod_name
  check_pod_name (err e) spec = fail (wrapped "unable to create clientset" e)
  check_pod_name panic spec = panics

  -- `if _, ok := util.ProcessPodsMap[name]; ok { return e }`
  unfoldable pub not_processed : Bytes → Error → Proc PodsMap (Unit {0})
  not_processed name e = do busy ← gets (λ m. contains name m); refuse busy e

  -- The guards on the spec alone, in the source's order.
  unfoldable pub check_fields : MigrationSpec → Proc PodsMap (Unit {0})
  check_fields spec = do
    refuse (named && deployed) (errorf "only one of podname and deployment can be set" [])
    refuse (named && specified) (errorf "only one of podname and specify can be set" [])
    refuse (deployed && specified) (errorf "only one of deployment and specify can be set" [])
    refuse (is_empty spec.destination_node) (errorf "destinationNode must be set" [])
    refuse (is_empty spec.destination_namespace) (errorf "destinationNamespace must be set" [])
    refuse (is_empty spec.namespace) (errorf "namespace must be set" [])
    where
      named : Bool
      named = not (is_empty spec.pod_name)

      deployed : Bool
      deployed = not (is_empty spec.deployment)

      specified : Bool
      specified = not (is_empty spec.specify)

  -- The lookups in the cluster.
  unfoldable pub check_targets : Outcome (Unit {0}) → MigrationSpec → Proc PodsMap (Unit {0})
  check_targets client spec = do
    when (not (is_empty spec.pod_name)) (check_pod_name client spec)
    when (not (is_empty spec.deployment))
        (through client (deployment_exists spec.namespace spec.deployment))
    for_each spec.specify (λ name. through client (pod_exists spec.namespace name))

  -- The lookups in ProcessPodsMap.
  unfoldable pub check_processed : MigrationSpec → Proc PodsMap (Unit {0})
  check_processed spec = do
    when (not (is_empty spec.pod_name)) (not_processed spec.pod_name (pod_is_processed spec))
    for_each spec.specify (λ name. not_processed name (listed_is_processed name))

  unfoldable pub validate_migration : MigrationSpec → Proc PodsMap (Unit {0})
  validate_migration spec = do
    check_fields spec
    client ← client_or_error
    check_targets client spec
    check_processed spec

  unfoldable pub validate_create : MigrationSpec → Proc PodsMap (Unit {0})
  validate_create spec = validate_migration spec

  unfoldable pub validate_update : MigrationSpec → MigrationSpec → Proc PodsMap (Unit {0})
  validate_update old spec = validate_migration spec

  unfoldable pub validate_delete : MigrationSpec → Proc PodsMap (Unit {0})
  validate_delete spec = return tt
