-- ===== src/Monitor/Moved.antt =====
-- What is done with the pods of a loaded node.
use checkpoint_operator.Base.{
  List, [], ◌∷◌, Bool, true, false, Bytes, select, if◌then◌else◌, ◌≡◌, ◌≢◌, refl, arith, ◌∙◌, ap,
}
use checkpoint_operator.Outcome.{ok, panic}
use checkpoint_operator.Cluster.{Env, Pod, MigrationSpec, Trace, apply_migration}
use checkpoint_operator.Proc.{◌>>=◌, on_error, for_each}
use checkpoint_operator.Proc.Inversion.{bind_from}
use checkpoint_operator.Monitor.{
  Meter, Rates, PodUsage, check_is_valid_namespace, migration_for, do_ssa, migrate_away,
}

abbrev pub is_movable : PodUsage → Bool
is_movable item = check_is_valid_namespace item.pod.namespace

-- The Migration of just this pod to the node, within its namespace.
abbrev pub asked_for : Pod → Bytes → MigrationSpec
asked_for pod node = record {
  pod_name = pod.name;
  deployment = [];
  namespace = pod.namespace;
  destination_node = node;
  destination_namespace = pod.namespace;
  specify = [];
}

-- The trace once the Migrations of some pods are applied, the newest first.
abbrev pub moved : Bytes → List PodUsage → Trace → Trace
moved node [] t = t
moved node (item ∷ items) t = moved node items (apply_migration (asked_for item.pod node) ∷ t)

moved-if :
    (b : Bool) (node : Bytes) (item : PodUsage) (items : List PodUsage) (t : Trace)
    → moved node items (if b then apply_migration (asked_for item.pod node) ∷ t else t)
      ≡ moved node (if b then item ∷ items else items) t
moved-if true node item items t = refl
moved-if false node item items t = refl

module _ {Rate : Type 0} (env : Env) (meter : Meter Rate)
    (prepared : (t : Trace) (spec : MigrationSpec) → meter.prepare t spec ≡ ok tt)
    (no_panic : (t : Trace) (spec : MigrationSpec) → meter.apply t spec ≢ panic) where
  migrate_away-eq :
      (node : Bytes) (item : PodUsage) (s : Rates Rate) (t : Trace)
      → let r = migrate_away env meter node item s t in
        (r.outcome ≡ ok tt)
        × (r.globals ≡ s)
        × (r.trace ≡ (if is_movable item then apply_migration (asked_for item.pod node) ∷ t else t))
  unfolding migrate_away migration_for do_ssa ◌>>=◌ on_error
  migrate_away-eq node item s t =
      let spec = asked_for item.pod node in ground (arith, prepared t spec, no_panic t spec)

  -- Where each Migration can be prepared and the client does not panic, the loop over the pods
  -- applies one for each pod outside the namespaces of the system, in the order of the pods, and
  -- calls nothing else. The Migration of a pod names the pod and its namespace, to which it comes
  -- back, and the node, and no deployment or list of pods; one that is refused stops nothing.
  pub for_each-migrate_away :
      (node : Bytes) (items : List PodUsage) (s : Rates Rate) (t : Trace)
      → let r = for_each items (migrate_away env meter node) s t in
        (r.outcome ≡ ok tt) × (r.globals ≡ s) × (r.trace ≡ moved node (select is_movable items) t)
  unfolding for_each
  for_each-migrate_away node [] s t = (refl, refl, refl)
  for_each-migrate_away node (item ∷ items) s t =
      let r = migrate_away env meter node item s t in
      let (done, same, trace) = migrate_away-eq node item s t in
      let run =
        bind_from (migrate_away env meter node item)
          (λ _. for_each items (migrate_away env meter node)) s t tt done in
      let (d, g, rest) = for_each-migrate_away node items s r.trace in
      rw (run, same)
        (
          d,
          g,
          rest
              ∙ ap (moved node (select is_movable items)) trace
              ∙ moved-if (is_movable item) node item (select is_movable items) t,
        )
