-- ===== src/Monitor/Applied.antt =====
-- Which Migrations the monitor applies.
use checkpoint_operator.Base.{ℕ, List, [], ◌∷◌, Option, none, some, true, Bytes, ◌≡◌, refl, All}
use checkpoint_operator.Cluster.{Env, Pod, MigrationSpec, Trace, apply_migration}
use checkpoint_operator.Proc.{modify, return}
use checkpoint_operator.Proc.Keeps.{
  Keeps, Keeps-call, Keeps-if, Keeps-bind, Keeps-on_error, Keeps-return, Keeps-modify,
  Keeps-observe, keeps_rules,
}
use checkpoint_operator.Monitor.{
  Node, ContainerUsage, PodUsage, Meter, Rates, check_is_valid_namespace, migration_for, do_ssa,
  collect, list_on_node, get_cpu_usage_on_node, get_node_memory_usage_rate,
  get_top_five_pods_by_cpu, get_top_five_pods_by_memory, migrate_away, relieve_cpu, relieve_memory,
  monitor_node, reconcile_node, monitor_found, connect,
}

-- The Migrations that a trace applies, the newest first.
abbrev pub applied : Trace → List MigrationSpec
applied [] = []
applied (apply_migration spec ∷ t) = spec ∷ applied t
applied (c ∷ t) = applied t

-- A Migration of a pod outside the system's namespaces, which stays in its namespace.
abbrev pub IsAllowed : MigrationSpec → Type 0
IsAllowed spec =
    (check_is_valid_namespace spec.namespace ≡ true) × (spec.destination_namespace ≡ spec.namespace)

module _ {Rate : Type 0} (env : Env) (meter : Meter Rate) where
  abbrev AppliesAllowed : Rates Rate → Trace → Type 0
  AppliesAllowed s t = All IsAllowed (applied t)

  modify-AppliesAllowed : (f : Rates Rate → Rates Rate) → Keeps AppliesAllowed (modify f)
  modify-AppliesAllowed f = Keeps-modify f (λ s t h. h)

  do_ssa-AppliesAllowed :
      (p : Pod) (node : Bytes)
      → check_is_valid_namespace p.namespace ≡ true
      → Keeps AppliesAllowed (do_ssa env meter p node)
  unfolding do_ssa migration_for
  do_ssa-AppliesAllowed p node h =
      Keeps-bind _ _ (Keeps-observe _) (λ _. Keeps-call _ _ (λ s t kept. ((h, refl), kept)))

  migrate_away-AppliesAllowed :
      (node : Bytes) (item : PodUsage) → Keeps AppliesAllowed (migrate_away env meter node item)
  unfolding migrate_away
  migrate_away-AppliesAllowed node item =
      Keeps-if _ _ _
        (λ valid.
          Keeps-on_error _ _ _ (do_ssa-AppliesAllowed item.pod node valid) (λ _. Keeps-return tt)
            (λ _. Keeps-return tt))
        (λ _. Keeps-return tt)

  collect-AppliesAllowed :
      (of : ContainerUsage → Option ℕ) (ps : List Pod) (found : List PodUsage)
      → Keeps AppliesAllowed (collect env meter of found ps)
  unfolding collect
  collect-AppliesAllowed of [] found = Keeps-return found
  collect-AppliesAllowed of (p ∷ ps) found =
      Keeps-on_error _ _ _ (Keeps-call _ _ (λ s t h. h)) (λ _. collect-AppliesAllowed of ps found)
        (λ cs. collect-AppliesAllowed of ps _)

  by_cpu-AppliesAllowed :
      (name : Bytes) → Keeps AppliesAllowed (get_top_five_pods_by_cpu env meter name)
  unfolding get_top_five_pods_by_cpu list_on_node
  by_cpu-AppliesAllowed name = search (keeps_rules, Keeps-call, collect-AppliesAllowed) depth 8

  by_memory-AppliesAllowed :
      (name : Bytes) → Keeps AppliesAllowed (get_top_five_pods_by_memory env meter name)
  unfolding get_top_five_pods_by_memory list_on_node
  by_memory-AppliesAllowed name = search (keeps_rules, Keeps-call, collect-AppliesAllowed) depth 8

  cpu_usage-AppliesAllowed :
      (node : Node) → Keeps AppliesAllowed (get_cpu_usage_on_node env meter node)
  unfolding get_cpu_usage_on_node
  cpu_usage-AppliesAllowed node = search (keeps_rules, Keeps-call) depth 8

  memory_usage-AppliesAllowed :
      (name : Bytes) → Keeps AppliesAllowed (get_node_memory_usage_rate env meter name)
  unfolding get_node_memory_usage_rate
  memory_usage-AppliesAllowed name = search (keeps_rules, Keeps-call) depth 8

  relieve_cpu-AppliesAllowed :
      (name : Bytes) (rate : Rate) → Keeps AppliesAllowed (relieve_cpu env meter name rate)
  unfolding relieve_cpu
  relieve_cpu-AppliesAllowed name rate =
      search (keeps_rules, Keeps-modify, by_cpu-AppliesAllowed, migrate_away-AppliesAllowed) depth
        12

  relieve_memory-AppliesAllowed :
      (name : Bytes) (rate : Rate) → Keeps AppliesAllowed (relieve_memory env meter name rate)
  unfolding relieve_memory
  relieve_memory-AppliesAllowed name rate =
      search (keeps_rules, Keeps-modify, by_memory-AppliesAllowed, migrate_away-AppliesAllowed)
        depth 12

  monitor_node-AppliesAllowed : (node : Node) → Keeps AppliesAllowed (monitor_node env meter node)
  unfolding monitor_node
  monitor_node-AppliesAllowed node =
      search
        (
          keeps_rules, Keeps-modify, cpu_usage-AppliesAllowed, memory_usage-AppliesAllowed,
          relieve_cpu-AppliesAllowed, relieve_memory-AppliesAllowed,
        )
        depth 16

  monitor_found-AppliesAllowed :
      (node : Option Node) → Keeps AppliesAllowed (monitor_found env meter node)
  unfolding monitor_found
  monitor_found-AppliesAllowed none = Keeps-return 0
  monitor_found-AppliesAllowed (some node) =
      Keeps-if node.is_control_plane (return 0) _ (λ _. Keeps-return 0)
        (λ _. monitor_node-AppliesAllowed node)

  connect-AppliesAllowed : Keeps AppliesAllowed (connect env meter)
  unfolding connect
  connect-AppliesAllowed = search (keeps_rules, Keeps-call, Keeps-modify) depth 8

  reconcile_node-AppliesAllowed :
      (name : Bytes) → Keeps AppliesAllowed (reconcile_node env meter name)
  unfolding reconcile_node
  reconcile_node-AppliesAllowed name =
      search (keeps_rules, Keeps-call, connect-AppliesAllowed, monitor_found-AppliesAllowed) depth
        12

-- If it is so in the trace before the run, then however a run of the monitor ends, the trace
-- applies Migrations only for pods outside the namespaces of the system, and each leaves its pod
-- in its namespace.
pub reconcile_node_applies :
    {Rate : Type 0} (env : Env) (meter : Meter Rate) (name : Bytes) (s : Rates Rate) (t : Trace)
    → All IsAllowed (applied t)
    → All IsAllowed (applied (reconcile_node env meter name s t).trace)
reconcile_node_applies env meter name s t h =
    (reconcile_node-AppliesAllowed env meter name).at s t h
