-- ===== src/Migration/Lock.antt =====
-- A reconciled Migration holds its pods in ProcessPodsMap.
use checkpoint_operator.Base.{
  some, [], =s_refl, ◌=s◌, inl, inr, refl, Bool-cases, true, Bytes, ◌∷◌, ◌≡◌,
}
use checkpoint_operator.Outcome.{ok}
use checkpoint_operator.Cluster.{Env, MigrationSpec, Trace, get_migration}
use checkpoint_operator.Proc.{modify, on_error, branch, ◌>>=◌}
use checkpoint_operator.Util.Globals.{
  MigrationInfo, fill_in_global_variables, lookup, lookup-insert, PodsMap, contains,
  contains-fill_in, contains-fill_in_self,
}
use checkpoint_operator.Migration.{fill_in_spec, reconcile}
use checkpoint_operator.Migration.Invariants.{reconcile_spec-Keeps, reconcile-Keeps}

-- `k` is being processed.
abbrev Holds : Bytes → PodsMap → Trace → Type 0
Holds k s t = contains k s ≡ true

-- Once the object is fetched, its pod is held when Reconcile ends, be it by an error or a panic.
pub reconcile_holds :
    (env : Env) (namespace name : Bytes) (spec : MigrationSpec) (s : PodsMap) (t : Trace)
    → env.get_migration t namespace name ≡ ok spec
    → contains spec.pod_name (reconcile env namespace name s t).globals ≡ true
unfolding reconcile on_error fill_in_spec ◌>>=◌ modify
reconcile_holds env namespace name spec s t e =
    let k = spec.pod_name in
    rw (e, branch)
      ((reconcile_spec-Keeps {P = Holds k} env (λ c s t _ h. h) spec
          (λ j d s t h. contains-fill_in k j d _ _ _ _ s h)).at
        _ (get_migration namespace name ∷ t) (contains-fill_in_self k _ _ _ _ _ s))

-- Reconcile takes no entry out of ProcessPodsMap, however it ends.
pub reconcile_keeps_held :
    (env : Env) (namespace name k : Bytes) (s : PodsMap) (t : Trace)
    → contains k s ≡ true
    → contains k (reconcile env namespace name s t).globals ≡ true
reconcile_keeps_held env namespace name k s t h =
    (reconcile-Keeps {P = Holds k} env (λ c s t _ h. h)
        (λ spec j d s t h. contains-fill_in k j d _ _ _ _ s h) namespace name).at
      s t h

-- The entry is for this object: where the pod is, and where it goes.
pub record IsEntryOf (spec : MigrationSpec) (info : MigrationInfo) : Type 0 where
  pub source : info.source_namespace ≡ spec.namespace
  pub node : info.destination_node ≡ spec.destination_node
  pub namespace : info.destination_namespace ≡ spec.destination_namespace

-- The entry of the name is for the object.
abbrev pub Enters : MigrationSpec → Bytes → PodsMap → Type 0
Enters spec k s = (info : MigrationInfo) × (lookup k s ≡ some info) × IsEntryOf spec info

abbrev pub entry_of : MigrationSpec → Bytes → MigrationInfo
entry_of spec d = record {
  pod_name = [];
  deployment = d;
  source_namespace = spec.namespace;
  destination_node = spec.destination_node;
  destination_namespace = spec.destination_namespace;
  specify = spec.specify;
}

Enters-fill_in_self :
    (spec : MigrationSpec) (k d : Bytes) (s : PodsMap)
    → Enters spec k (
        fill_in_global_variables k d spec.namespace spec.destination_node spec.destination_namespace
          spec.specify s)
unfolding fill_in_global_variables
Enters-fill_in_self spec k d s = (
  entry_of spec d,
  rw (lookup-insert, =s_refl) refl,
  record { source = refl; node = refl; namespace = refl },
)

Enters-fill_in :
    (spec : MigrationSpec) (k j d : Bytes) (s : PodsMap)
    → Enters spec k s
    → Enters spec k (
        fill_in_global_variables j d spec.namespace spec.destination_node spec.destination_namespace
          spec.specify s)
unfolding fill_in_global_variables
Enters-fill_in spec k j d s (info, e, h) = elim (Bool-cases (j =s k)) [
  | inl same ↦ (
    entry_of spec d,
    rw (lookup-insert, same) refl,
    record { source = refl; node = refl; namespace = refl },
  )
  | inr other ↦ (info, rw (lookup-insert, other) e, h)
]

-- Once the object is fetched, the entry of its pod is for this object when Reconcile ends.
pub reconcile-Enters :
    (env : Env) (namespace name : Bytes) (spec : MigrationSpec) (s : PodsMap) (t : Trace)
    → env.get_migration t namespace name ≡ ok spec
    → Enters spec spec.pod_name (reconcile env namespace name s t).globals
unfolding reconcile on_error fill_in_spec ◌>>=◌ modify
reconcile-Enters env namespace name spec s t e =
    let k = spec.pod_name in
    rw (e, branch)
      ((reconcile_spec-Keeps {P = λ s t. Enters spec k s} env (λ c s t _ h. h) spec
          (λ j d s t h. Enters-fill_in spec k j d s h)).at
        _ (get_migration namespace name ∷ t) (Enters-fill_in_self spec k _ s))
