-- ===== src/Pipeline/Entries.antt =====
-- The life of an entry of ProcessPodsMap: Reconcile makes it, the webhook refuses further Migrations
-- of its pod, and the arrival of the pod's image ends it.
use checkpoint_operator.Base.{[], false, Bytes, Lacks, ◌≡◌, ◌≢◌}
use checkpoint_operator.Outcome.{ok}
use checkpoint_operator.Cluster.{Env, MigrationSpec, Message, Pod, Trace}
use checkpoint_operator.Util.Globals.{PodsMap, contains, contains-remove_self}
use checkpoint_operator.Util.ImageName.{modify_checkpoint_to_image_name}
use checkpoint_operator.Webhook.{validate_migration}
use checkpoint_operator.Webhook.Verdict.{validate-ok}
use checkpoint_operator.Migration.{reconcile}
use checkpoint_operator.Migration.Lock.{reconcile_holds}
use checkpoint_operator.Deploy.{deploy_message}
use checkpoint_operator.Deploy.Entries.{deploy_message_map}
use checkpoint_operator.Pipeline.Names.{archive_path, archive-names}

-- After Reconcile has fetched a Migration, however it ended, the webhook accepts no Migration
-- that names the same pod, in whatever namespace. The pod's name is not empty.
pub reconciled_is_refused :
    (env : Env) (namespace name : Bytes) (spec later : MigrationSpec) (s : PodsMap) (t t' : Trace)
    → env.get_migration t namespace name ≡ ok spec
    → later.pod_name ≡ spec.pod_name
    → later.pod_name ≢ []
    → (validate_migration env later (reconcile env namespace name s t).globals t').outcome ≢ ok tt
reconciled_is_refused env namespace name spec later s t t' fetched same named accepted =
    let held = reconcile_holds env namespace name spec s t fetched in
    let free = (validate-ok env later (reconcile env namespace name s t).globals t' accepted).1 in
    cc (rw same at (free.pod named), held)

-- When the message for the image of a pod's archive is handled, the pod's entry is gone afterwards,
-- however the deployment ends. The pod's name holds no underscore.
pub delivered_is_free :
    (env : Env) (registry : Pod) (pod rest node : Bytes) (s : PodsMap) (t : Trace)
    → Lacks b'_' pod
    → let m : Message = record {
      key = node;
      value = modify_checkpoint_to_image_name (archive_path pod rest);
    } in
      contains pod (deploy_message env registry m s t).globals ≡ false
delivered_is_free env registry pod rest node s t h =
    let m : Message = record {
      key = node;
      value = modify_checkpoint_to_image_name (archive_path pod rest);
    } in
    let (_, old, _) = archive-names pod rest h in
    rw (deploy_message_map env registry m s t) (rw old (contains-remove_self pod s))
