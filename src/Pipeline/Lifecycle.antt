-- ===== src/Pipeline/Lifecycle.antt =====
-- The life of an entry of ProcessPodsMap over any history of the operator.
use checkpoint_operator.Base.{
  List, [], ◌∷◌, ◌++◌, true, false, Bytes, ◌=s◌, =s_iff, Any, here, there, All, ◌≡◌, ◌≢◌, sym, ◌∙◌,
  ◌⊎◌, inl, inr, Bool-cases,
}
use checkpoint_operator.Outcome.{ok}
use checkpoint_operator.Cluster.{Env, MigrationSpec, Message, Pod, Trace}
use checkpoint_operator.Util.Globals.{PodsMap, contains, remove, lookup-remove}
use checkpoint_operator.Webhook.{validate_migration}
use checkpoint_operator.Webhook.Verdict.{validate-ok}
use checkpoint_operator.Webhook.Reads.{validate_migration_reads}
use checkpoint_operator.Migration.{reconcile}
use checkpoint_operator.Migration.Lock.{reconcile_holds, reconcile_keeps_held}
use checkpoint_operator.Deploy.{deploy_message, old_pod_name}
use checkpoint_operator.Deploy.Entries.{deploy_message_map}

-- What the operator is asked to do: to validate a Migration, to reconcile the object of a namespace
-- and a name, to handle a message for a registry pod.
pub data Request : Type 0 where
  admission : MigrationSpec → Request
  reconciliation : Bytes → Bytes → Request
  arrival : Pod → Message → Request

-- The operator's answer, whole and with no other between; its outcome may be an error.
pub data Handles (env : Env) : PodsMap → Trace → Request → PodsMap → Trace → Type 0 where
  validates :
      {s : PodsMap} {t : Trace} (spec : MigrationSpec)
      → Handles env s t
          (admission spec)
          (validate_migration env spec s t).globals
          (validate_migration env spec s t).trace
  reconciles :
      {s : PodsMap} {t : Trace} (namespace name : Bytes)
      → Handles env s t
          (reconciliation namespace name)
          (reconcile env namespace name s t).globals
          (reconcile env namespace name s t).trace
  deploys :
      {s : PodsMap} {t : Trace} (registry : Pod) (m : Message)
      → Handles env s t
          (arrival registry m)
          (deploy_message env registry m s t).globals
          (deploy_message env registry m s t).trace

-- The newest request first. Calls of others may come between two requests.
pub data History (env : Env) (s₀ : PodsMap) (t₀ : Trace)
    : List Request → PodsMap → Trace → Type 0 where
  start : History env s₀ t₀ [] s₀ t₀
  then_ :
      {es : List Request} {s : PodsMap} {t : Trace} {e : Request} {s' : PodsMap} {t' : Trace}
      → History env s₀ t₀ es s t
      → Handles env s t e s' t'
      → History env s₀ t₀ (e ∷ es) s' t'
  elsewhere :
      {es : List Request} {s : PodsMap} {t : Trace} (calls : Trace)
      → History env s₀ t₀ es s t
      → History env s₀ t₀ es s (calls ++ t)

-- The request is the arrival of the image of a pod.
abbrev pub Delivers : Bytes → Request → Type 0
Delivers pod (arrival registry m) = old_pod_name m.value ≡ pod
Delivers pod _ = ⊥

-- The Migration names the pod, by itself or in its list.
abbrev pub Names : MigrationSpec → Bytes → Type 0
Names spec pod = ((spec.pod_name ≡ pod) × (pod ≢ [])) ⊎ Any (λ name. name ≡ pod) spec.specify

remove_other :
    (k j : Bytes) (s : PodsMap)
    → (k =s j) ≡ false
    → contains j s ≡ true
    → contains j (remove k s) ≡ true
remove_other k j s e h = rw (lookup-remove k j s, e) h

module _ (env : Env) (pod : Bytes) where
  Handles-held :
      {s : PodsMap} {t : Trace} {e : Request} {s' : PodsMap} {t' : Trace}
      → Handles env s t e s' t'
      → contains pod s ≡ true
      → (contains pod s' ≡ true) ⊎ Delivers pod e
  Handles-held {s} {t} (validates spec) h = inl (rw (validate_migration_reads env spec s t).0 h)
  Handles-held {s} {t} (reconciles namespace name) h =
      inl (reconcile_keeps_held env namespace name pod s t h)
  Handles-held {s} {t} (deploys registry m) h = elim (Bool-cases (old_pod_name m.value =s pod)) [
    | inl e ↦ inr ((=s_iff (old_pod_name m.value) pod).0 e)
    | inr e ↦
        inl (
          rw (deploy_message_map env registry m s t)
            (remove_other (old_pod_name m.value) pod s e h))
  ]

  History-held :
      {s₀ : PodsMap} {t₀ : Trace} {es : List Request} {s : PodsMap} {t : Trace}
      → History env s₀ t₀ es s t
      → contains pod s₀ ≡ true
      → (contains pod s ≡ true) ⊎ Any (Delivers pod) es
  History-held start h = inl h
  History-held (elsewhere calls r) h = History-held r h
  History-held (then_ r step) h = elim (History-held r h) [
    | inr before ↦ inr (there before)
    | inl held ↦ elim (Handles-held step held) [ inl still ↦ inl still | inr now ↦ inr (here now) ]
  ]

not_free :
    (pod : Bytes) (s : PodsMap) (names : List Bytes)
    → contains pod s ≡ true
    → All (λ name. contains name s ≡ false) names
    → Any (λ name. name ≡ pod) names
    → ⊥
not_free pod s [] held free m = elim m [ ]
not_free pod s (name ∷ names) held (free, _) (here e) = cc (e, free, held)
not_free pod s (name ∷ names) held (_, free) (there m) = not_free pod s names held free m

-- After the reconciliation of a Migration of a pod, whatever the operator is asked to do next, in
-- whatever order and with whatever outcome: if the webhook then accepts a Migration that names the
-- pod, by itself or in its list, the image of the pod has arrived in between.
pub accepted_only_after_arrival :
    (env : Env) (namespace name : Bytes) (spec later : MigrationSpec) (s : PodsMap) (t : Trace)
    {es : List Request} {s' : PodsMap} {t' : Trace}
    → env.get_migration t namespace name ≡ ok spec
    → History env
        (reconcile env namespace name s t).globals
        (reconcile env namespace name s t).trace
        es
        s'
        t'
    → (validate_migration env later s' t').outcome ≡ ok tt
    → Names later spec.pod_name
    → Any (Delivers spec.pod_name) es
accepted_only_after_arrival env namespace name spec later s t {s'} {t'} fetched history accepted
      named =
    let pod = spec.pod_name in
    let free = (validate-ok env later s' t' accepted).1 in
    elim (History-held env pod history (reconcile_holds env namespace name spec s t fetched)) [
      | inr arrived ↦ arrived
      | inl held ↦ absurd (elim named [
        | inl (same, some_name) ↦ cc (rw same at (free.pod (λ e. some_name (sym same ∙ e))), held)
        | inr listed ↦ not_free pod s' later.specify held free.listed listed
      ])
    ]
