-- ===== src/Pipeline/Handover.antt =====
-- The operator and the restore daemon together: they share the broker's topic `delete-pod`.
pub mod Received
pub mod Safe
use mathlib.Core.Path.{subst}
use checkpoint_operator.Base.{
  List, [], ◌∷◌, ◌++◌, Bool, true, false, Bytes, Option, none, some, index, ◌=s◌, =s_iff,
  if◌then◌else◌, ◌≡◌, refl, sym, ap, ◌∙◌, ◌⊎◌, inl, inr, arith,
}
use checkpoint_operator.Outcome.{Error, Outcome, ok, err, panic}
use checkpoint_operator.Cluster.{
  Env, Pod, MigrationSpec, Call, Trace, Feed, expired, deadline, failed, fetched, Message,
  create_pod, delete_pod, get_pod, commit, fetch, write,
}
use checkpoint_operator.Proc.{Proc, ◌>>=◌, on_error, call, return, give, observe, continue}
use checkpoint_operator.Proc.Keeps.{
  Keeps, Keeps-bind, Keeps-call, Keeps-on_error, Keeps-continue, keeps_rules,
}
use checkpoint_operator.Util.Globals.{PodsMap}
use checkpoint_operator.Util.Clientset.{create_client_set, through}
use checkpoint_operator.Kafka.{Notice, delete_pod_topic, read_notice, notice_loop, consume_notice}
use checkpoint_operator.Kafka.Notices.{read_notice-pod}
use checkpoint_operator.Deploy.{deploy_pod_on_new_node}
use checkpoint_operator.Migration.{reconcile}
use checkpoint_operator.Webhook.{validate_migration}
use checkpoint_operator.Deploy.Announced.{JustCreated, Announced, deploy_pod_on_new_node_announces}
use checkpoint_operator.Deploy.Invariants.{deploy_pod_on_new_node-Keeps}
use checkpoint_operator.Restore.{after_dash, delete_old_pod, handle_notice, restore_round}
use checkpoint_operator.Restore.Justified.{Justified, HasReason, WasTold, round-Keeps}

-- A message to the topic.
abbrev pub is_announcement : Call → Bool
is_announcement (write topic m) = topic =s delete_pod_topic
is_announcement c = false

abbrev pub quiet : Trace → Bool
quiet [] = true
quiet (c ∷ t) = if is_announcement c then false else quiet t

-- The message was sent to the topic.
abbrev pub WasSent : Message → Trace → Type 0
WasSent m [] = ⊥
WasSent m (write topic m' ∷ t) = ((topic ≡ delete_pod_topic) × (m' ≡ m)) ⊎ WasSent m t
WasSent m (c ∷ t) = WasSent m t

-- What the broker offers was sent.
abbrev pub Offers : Trace → Feed → Type 0
Offers t expired = Unit
Offers t deadline = Unit
Offers t (failed rest) = Offers t rest
Offers t (fetched m committed rest) = WasSent m t × Offers t rest

-- The operator's variables, and the calls of the two programs.
pub record World : Type 0 where
  pub vars : PodsMap
  pub operator : Trace
  pub daemon : Trace

-- The operator deploys what has arrived for a registry pod, reconciles an object, or validates a
-- Migration; other calls come in between, which are no message to the topic; the daemon makes a
-- round, where the broker offers what was sent.
pub data Step (env renv : Env) : World → World → Type 0 where
  deploys :
      {w : World} (pod : Pod)
      → Step env renv w (record w {
        vars = (deploy_pod_on_new_node env pod w.vars w.operator).globals;
        operator = (deploy_pod_on_new_node env pod w.vars w.operator).trace;
      })
  reconciles :
      {w : World} (namespace name : Bytes)
      → Step env renv w (record w {
        vars = (reconcile env namespace name w.vars w.operator).globals;
        operator = (reconcile env namespace name w.vars w.operator).trace;
      })
  validates :
      {w : World} (spec : MigrationSpec)
      → Step env renv w (record w {
        vars = (validate_migration env spec w.vars w.operator).globals;
        operator = (validate_migration env spec w.vars w.operator).trace;
      })
  elsewhere :
      {w : World} (calls : Trace)
      → quiet calls ≡ true
      → Step env renv w (record w { operator = calls ++ w.operator })
  restores :
      {w : World}
      → Offers w.operator (renv.feed w.daemon delete_pod_topic)
      → Step env renv w
          (record w { daemon = (restore_round renv {S = Unit {0}} tt w.daemon).trace })

pub data Reach (env renv : Env) : World → Type 0 where
  start : (vars : PodsMap) → Reach env renv (record { vars = vars; operator = []; daemon = [] })
  then_ : {w w' : World} → Reach env renv w → Step env renv w w' → Reach env renv w'

-- The cluster has accepted a pod whose name has this one after its first dash.
abbrev pub HasSuccessor : Env → Bytes → Trace → Type 0
HasSuccessor env name [] = ⊥
HasSuccessor env name (create_pod namespace p ∷ t) =
    ((after_dash p.name ≡ name) × (env.create_pod t namespace p ≡ ok tt)) ⊎ HasSuccessor env name t
HasSuccessor env name (c ∷ t) = HasSuccessor env name t

-- Each pod that the second trace deletes has its successor in the first.
abbrev pub Succeeded : Env → Trace → Trace → Type 0
Succeeded env operator [] = Unit
Succeeded env operator (delete_pod namespace name ∷ t) =
    HasSuccessor env name operator × Succeeded env operator t
Succeeded env operator (c ∷ t) = Succeeded env operator t

-- Each message that the second trace commits was sent in the first.
abbrev pub Received : Trace → Trace → Type 0
Received operator [] = Unit
Received operator (commit m ∷ t) = WasSent m operator × Received operator t
Received operator (c ∷ t) = Received operator t
