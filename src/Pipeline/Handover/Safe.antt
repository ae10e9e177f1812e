-- ===== src/Pipeline/Handover/Safe.antt =====
-- A pod goes only after its successor has come.
use mathlib.Core.Path.{subst}
use checkpoint_operator.Base.{
  [], ◌∷◌, ◌++◌, refl, Bool, true, false, Bytes, ◌=s◌, =s_iff, if◌then◌else◌, ◌≡◌, sym, ap, ◌∙◌,
  inl, inr,
}
use checkpoint_operator.Cluster.{
  Env, Call, Trace, Message, create_pod, delete_pod, get_pod, commit, write,
}
use checkpoint_operator.Kafka.{delete_pod_topic}
use checkpoint_operator.Kafka.Notices.{read_notice-pod}
use checkpoint_operator.Deploy.{deploy_pod_on_new_node}
use checkpoint_operator.Deploy.Announced.{JustCreated, Announced, deploy_pod_on_new_node_announces}
use checkpoint_operator.Deploy.Invariants.{deploy_pod_on_new_node-Keeps}
use checkpoint_operator.Restore.{after_dash}
use checkpoint_operator.Restore.Justified.{Justified, HasReason, WasTold, round-Keeps}
use checkpoint_operator.Cluster.Reads.{is_write}
use checkpoint_operator.Migration.{reconcile}
use checkpoint_operator.Migration.Invariants.{is_message, reconcile-Keeps}
use checkpoint_operator.Webhook.{validate_migration}
use checkpoint_operator.Webhook.Reads.{validate_migration-Keeps}
use checkpoint_operator.Pipeline.Handover.{
  reconciles, validates, quiet, WasSent, World, Step, deploys, elsewhere, restores, Reach, start,
  then_, HasSuccessor, Succeeded, Received,
}
use checkpoint_operator.Pipeline.Handover.Received.{round-Receives}

created_successor :
    (env : Env) (key : Bytes) (t : Trace)
    → JustCreated env key t
    → HasSuccessor env (after_dash key) t
created_successor env key [] h = elim h [ ]
created_successor env key (create_pod namespace p ∷ t) (e, accepted) =
    inl (ap after_dash e, accepted)
created_successor env key (c ∷ t) h = elim h [ ]

-- A message to the topic names a pod that was created.
sent_created :
    (env : Env) (m : Message) (t : Trace)
    → Announced env t
    → WasSent m t
    → HasSuccessor env (after_dash m.key) t
sent_created env m [] h s = elim s [ ]
sent_created env m (write topic m' ∷ t) (new, h) (inl (e, same)) =
    subst (λ x. HasSuccessor env (after_dash x.key) t) same (created_successor env m'.key t (new e))
sent_created env m (write topic m' ∷ t) (new, h) (inr more) = sent_created env m t h more
sent_created env m (create_pod namespace p ∷ t) h s = inr (sent_created env m t h s)
sent_created env m (c ∷ t) h s = sent_created env m t h s

told_successor :
    (env : Env) (operator : Trace) (namespace name : Bytes) (t : Trace)
    → Announced env operator
    → Received operator t
    → WasTold namespace name t
    → HasSuccessor env name operator
told_successor env operator namespace name [] h r told = elim told [ ]
told_successor env operator namespace name (commit m ∷ t) h (sent, r) (inl (n, e, _, same)) =
    subst (λ x. HasSuccessor env x operator) (sym (ap after_dash (read_notice-pod m n e)) ∙ same)
      (sent_created env m operator h sent)
told_successor env operator namespace name (commit m ∷ t) h (sent, r) (inr told) =
    told_successor env operator namespace name t h r told
told_successor env operator namespace name (c ∷ t) h r told =
    told_successor env operator namespace name t h r told

reason_successor :
    (env renv : Env) (operator : Trace) (namespace name : Bytes) (t : Trace)
    → Announced env operator
    → Received operator t
    → HasReason renv namespace name t
    → HasSuccessor env name operator
reason_successor env renv operator namespace name [] h r reason = elim reason [ ]
reason_successor env renv operator namespace name (get_pod n' p' ∷ t) h r (_, _, _, told) =
    told_successor env operator namespace name t h r told
reason_successor env renv operator namespace name (c ∷ t) h r reason = elim reason [ ]

Justified-Succeeded :
    (env renv : Env) (operator t : Trace)
    → Announced env operator
    → Received operator t
    → Justified renv t
    → Succeeded env operator t
Justified-Succeeded env renv operator [] h r j = tt
Justified-Succeeded env renv operator (delete_pod namespace name ∷ t) h r (reason, j) = (
  reason_successor env renv operator namespace name t h r reason,
  Justified-Succeeded env renv operator t h r j,
)
Justified-Succeeded env renv operator (commit m ∷ t) h (_, r) j =
    Justified-Succeeded env renv operator t h r j
Justified-Succeeded env renv operator (c ∷ t) h r j = Justified-Succeeded env renv operator t h r j

-- What was sent stays sent.
sent_earlier : (m : Message) (c : Call) (t : Trace) → WasSent m t → WasSent m (c ∷ t)
sent_earlier m (write topic m') t h = inr h
sent_earlier m c t h = h

sent_before : (m : Message) (calls t : Trace) → WasSent m t → WasSent m (calls ++ t)
sent_before m [] t h = h
sent_before m (c ∷ calls) t h = sent_earlier m c (calls ++ t) (sent_before m calls t h)

quiet_rest :
    (b : Bool) (calls : Trace) → (if b then false else quiet calls) ≡ true → quiet calls ≡ true
quiet_rest true calls e = cc
quiet_rest false calls e = e

Announced-elsewhere :
    (env : Env) (calls t : Trace)
    → quiet calls ≡ true
    → Announced env t
    → Announced env (calls ++ t)
Announced-elsewhere env [] t e h = h
Announced-elsewhere env (write topic m ∷ calls) t e h = (
  λ same.
      absurd (
        cc
          (e, ap (λ b. if b then false else quiet calls) ((=s_iff topic delete_pod_topic).1 same))),
  Announced-elsewhere env calls t (quiet_rest (topic =s delete_pod_topic) calls e) h,
)
Announced-elsewhere env (c ∷ calls) t e h = Announced-elsewhere env calls t e h

Announced-other :
    (env : Env) (c : Call) (t : Trace)
    → is_message c ≡ false
    → Announced env t
    → Announced env (c ∷ t)
Announced-other env (write topic m) t e h = cc
Announced-other env c t e h = h

not_message : (c : Call) → is_write c ≡ false → is_message c ≡ false
not_message (write topic m) e = e
not_message c e = refl

Received-grows :
    (operator operator' t : Trace)
    → ((m : Message) → WasSent m operator → WasSent m operator')
    → Received operator t
    → Received operator' t
Received-grows operator operator' [] grow r = tt
Received-grows operator operator' (commit m ∷ t) grow (sent, r) =
    (grow m sent, Received-grows operator operator' t grow r)
Received-grows operator operator' (c ∷ t) grow r = Received-grows operator operator' t grow r

-- What holds in every reachable state.
record Holds (env renv : Env) (w : World) : Type 0 where
  announced : Announced env w.operator
  received : Received w.operator w.daemon
  justified : Justified renv w.daemon

Step-Holds :
    (env renv : Env) {w w' : World} → Step env renv w w' → Holds env renv w → Holds env renv w'
Step-Holds env renv {w} (deploys pod) h = record {
  announced = deploy_pod_on_new_node_announces env pod w.vars w.operator h.announced;
  received =
      Received-grows w.operator (deploy_pod_on_new_node env pod w.vars w.operator).trace w.daemon
        (λ m sent.
          (deploy_pod_on_new_node-Keeps {P = λ s t. WasSent m t} env
              (λ c s t k. sent_earlier m c t k) (λ k s t kept. kept) pod).at
            w.vars w.operator sent)
        h.received;
  justified = h.justified;
}
Step-Holds env renv {w} (reconciles namespace name) h = record {
  announced =
      (reconcile-Keeps {P = λ s t. Announced env t} env (λ c s t. Announced-other env c t)
          (λ spec k d s t kept. kept) namespace name).at
        w.vars w.operator h.announced;
  received =
      Received-grows w.operator (reconcile env namespace name w.vars w.operator).trace w.daemon
        (λ m sent.
          (reconcile-Keeps {P = λ s t. WasSent m t} env (λ c s t e. sent_earlier m c t)
              (λ spec k d s t kept. kept) namespace name).at
            w.vars w.operator sent)
        h.received;
  justified = h.justified;
}
Step-Holds env renv {w} (validates spec) h = record {
  announced =
      (validate_migration-Keeps {P = λ s t. Announced env t} env
          (λ c s t e. Announced-other env c t (not_message c e)) spec).at
        w.vars w.operator h.announced;
  received =
      Received-grows w.operator (validate_migration env spec w.vars w.operator).trace w.daemon
        (λ m sent.
          (validate_migration-Keeps {P = λ s t. WasSent m t} env (λ c s t e. sent_earlier m c t)
              spec).at
            w.vars w.operator sent)
        h.received;
  justified = h.justified;
}
Step-Holds env renv {w} (elsewhere calls e) h = record {
  announced = Announced-elsewhere env calls w.operator e h.announced;
  received =
      Received-grows w.operator (calls ++ w.operator) w.daemon
        (λ m sent. sent_before m calls w.operator sent) h.received;
  justified = h.justified;
}
Step-Holds env renv {w} (restores offered) h = record {
  announced = h.announced;
  received = round-Receives renv w.operator w.daemon offered h.received;
  justified = (round-Keeps renv).at tt w.daemon h.justified;
}

Reach-Holds : (env renv : Env) {w : World} → Reach env renv w → Holds env renv w
Reach-Holds env renv (start vars) = record { announced = tt; received = tt; justified = tt }
Reach-Holds env renv (then_ r step) = Step-Holds env renv step (Reach-Holds env renv r)

-- From a start with no calls, in whatever order the operator deploys pods, reconciles objects and
-- validates Migrations and the daemon makes its rounds, however these end: each pod that the daemon
-- deletes has its successor, a pod that the operator created, which the cluster accepted and whose
-- name has the deleted one's after its first dash. Assumed is that the broker offers the daemon only
-- what was sent to the topic, and that other calls in between send nothing to it.
pub deleted_after_successor :
    (env renv : Env) {w : World} → Reach env renv w → Succeeded env w.operator w.daemon
deleted_after_successor env renv {w} r =
    let h = Reach-Holds env renv r in
    Justified-Succeeded env renv w.operator w.daemon h.announced h.received h.justified
