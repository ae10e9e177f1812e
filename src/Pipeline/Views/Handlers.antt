-- ===== src/Pipeline/Views/Handlers.antt =====
-- All of the operator's handlers on tables with the same entries.
use checkpoint_operator.Base.{Bytes}
use checkpoint_operator.Cluster.{Env, MigrationSpec, Pod, Trace}
use checkpoint_operator.Proc.Respects.{Alike}
use checkpoint_operator.Util.Globals.{PodsMap}
use checkpoint_operator.Webhook.{validate_migration}
use checkpoint_operator.Migration.{reconcile}
use checkpoint_operator.Deploy.{deploy_pod_on_new_node}
use checkpoint_operator.Pipeline.Views.{SameView, validate_migration-Respects}
use checkpoint_operator.Pipeline.Views.Reconciled.{reconcile-Respects}
use checkpoint_operator.Pipeline.Views.Deployed.{deploy_pod_on_new_node-Respects}

-- From two tables with the same entry for each name, however the entries are ordered, and with the same
-- calls before: the webhook, the reconciler and the deployment each end with the same outcome and the
-- same calls, and leave tables that again have the same entries.
pub handlers-Alike :
    (env : Env) (spec : MigrationSpec) (namespace name : Bytes) (pod : Pod) (s s' : PodsMap)
    (t : Trace)
    → SameView s s'
    → Alike SameView (validate_migration env spec s t) (validate_migration env spec s' t)
      × Alike SameView (reconcile env namespace name s t) (reconcile env namespace name s' t)
      × Alike SameView (deploy_pod_on_new_node env pod s t) (deploy_pod_on_new_node env pod s' t)
handlers-Alike env spec namespace name pod s s' t h = (
  (validate_migration-Respects env spec).at s s' t h,
  (reconcile-Respects env namespace name).at s s' t h,
  (deploy_pod_on_new_node-Respects env pod).at s s' t h,
)
