-- ===== src/Monitor.antt =====
-- practice/internal/controller/nodemonitor_controller.go: pods are moved away from loaded nodes; and
-- practice/handlers/cr-decoder.go, which applies the Migration of such a pod.
pub mod Least
pub mod Applied
mod Idle
pub mod Moved
pub mod Top
pub mod Init
use Prim.Native.Nat.{◌%◌}
use checkpoint_operator.Base.{
  ℕ, ◌+◌, List, [], ◌∷◌, ◌++◌, Option, none, some, Bool, true, false, not, Bytes, codes, ◌=s◌,
  if◌then◌else◌, length, take, ltb,
}
use checkpoint_operator.Outcome.{Error, Outcome, ok, err, errorf, wrapped}
use checkpoint_operator.Cluster.{
  Env, Pod, MigrationSpec, Trace, Resources, on_node, list_pods, get_node, get_node_metrics,
  get_pod_metrics, new_metrics_client, apply_migration,
}
use checkpoint_operator.Proc.{
  Proc, call, return, give, gets, observe, modify, on_error, or_fail, for_each, when, ◌>>=◌, ◌>>◌,
}

-- corev1.Node, as far as it is read.
pub record Node : Type 0 where
  pub name : Bytes
  -- it has the label node-role.kubernetes.io/control-plane
  pub is_control_plane : Bool
  pub allocatable_cpu_milli : ℕ

-- The entry of a container in the metrics of its pod; a resource may be missing.
pub record ContainerUsage : Type 0 where
  pub cpu_cores : Option ℕ
  pub memory : Option ℕ

-- PodCPUUsage and PodMemoryUsage; the usage is an int64, by its bits.
pub record PodUsage : Type 0 where
  pub pod : Pod
  pub usage : ℕ

-- The rates are float64. The outside answers with metrics and nodes, sorts, and decides in which
-- order Go walks a map.
pub record Meter (Rate : Type 0) : Type 0 where
  -- `a < b`
  pub less : Rate → Rate → Bool
  -- float64(n)
  pub of_ℕ : ℕ → Rate
  -- float64(a) / float64(b) * 100
  pub percent : ℕ → ℕ → Rate
  -- `none` if the node is not found
  pub node : Trace → Bytes → Outcome (Option Node)
  pub memory_capacity : Trace → Bytes → Outcome ℕ
  pub is_not_found : Error → Bool
  pub pod_metrics : Trace → Bytes → Bytes → Outcome (List ContainerUsage)
  -- sort.Slice, the largest usage first
  pub sort : List PodUsage → List PodUsage
  pub walk : Trace → List (Bytes × Rate) → List (Bytes × Rate)
  -- DoSSA up to the request: the clients, the decoded object, its REST mapping
  pub prepare : Trace → MigrationSpec → Outcome (Unit {0})
  pub apply : Trace → MigrationSpec → Outcome (Unit {0})

-- The package's variables, and whether the reconciler has its metrics client.
pub record Rates (Rate : Type 0) : Type 0 where
  pub has_client : Bool
  pub cpu_rates : List (Bytes × Rate)
  pub memory_rates : List (Bytes × Rate)
  pub cpu_node : Bytes
  pub memory_node : Bytes

drop_rate : {Rate : Type 0} → Bytes → List (Bytes × Rate) → List (Bytes × Rate)
drop_rate k [] = []
drop_rate k ((j, r) ∷ rates) = if j =s k then drop_rate k rates else (j, r) ∷ drop_rate k rates

-- `rates[k] = r`
unfoldable pub set_rate : {Rate : Type 0} → Bytes → Rate → List (Bytes × Rate) → List (Bytes × Rate)
unfolding drop_rate
set_rate k r rates = (k, r) ∷ drop_rate k rates

-- The loop for the least loaded node: the rate to beat, and the node that is kept.
unfoldable pub pick_least :
    {Rate : Type 0} → (Rate → Rate → Bool) → Rate → Bytes → List (Bytes × Rate) → Rate × Bytes
pick_least less rate node [] = (rate, node)
pick_least less rate node ((name, r) ∷ rates) =
    if less r rate then pick_least less r name rates else pick_least less rate node rates

is_one_of : Bytes → List Bytes → Bool
is_one_of s [] = false
is_one_of s (x ∷ xs) = if s =s x then true else is_one_of s xs

unfoldable pub check_is_valid_namespace : Bytes → Bool
unfolding is_one_of
check_is_valid_namespace namespace = not (
    is_one_of namespace (
      codes "kube-system"
      ∷ codes "kube-public"
      ∷ codes "kube-node-lease"
      ∷ codes "calico-apiserver"
      ∷ codes "calico-system"
      ∷ codes "cert-manager"
      ∷ codes "tigera-operator"
      ∷ codes "kafka"
      ∷ codes "docker-registry"
      ∷ codes "practice-system"
      ∷ codes "restore"
      ∷ []))

-- `total += usage` in int64, where the entry is there
add_usage : ℕ → Option ℕ → ℕ
add_usage total none = total
add_usage total (some n) = (total + n) % 18446744073709551616

total_usage : (ContainerUsage → Option ℕ) → ℕ → List ContainerUsage → ℕ
total_usage of total [] = total
total_usage of total (c ∷ cs) = total_usage of (add_usage total (of c)) cs

-- The Migration that DoSSA applies: to another node, in the same namespace.
unfoldable pub migration_for : Pod → Bytes → MigrationSpec
migration_for pod node = record {
  pod_name = pod.name;
  deployment = [];
  namespace = pod.namespace;
  destination_node = node;
  destination_namespace = pod.namespace;
  specify = [];
}

module _ {Rate : Type 0} (env : Env) (meter : Meter Rate) where
  unfoldable pub do_ssa : Pod → Bytes → Proc (Rates Rate) (Unit {0})
  do_ssa pod node = do
    let spec = migration_for pod node
    observe (λ t. meter.prepare t spec)
    call (apply_migration spec) (λ t. meter.apply t spec)

  unfoldable pub get_cpu_usage_on_node : Node → Proc (Rates Rate) Rate
  get_cpu_usage_on_node node = do
    used ← call (get_node_metrics node.name) (λ t. env.node_usage t node.name)
    return (meter.percent used.cpu_milli node.allocatable_cpu_milli)

  unfoldable pub get_node_memory_usage_rate : Bytes → Proc (Rates Rate) Rate
  get_node_memory_usage_rate name = do
    used ← or_fail (call (get_node_metrics name) (λ t. env.node_usage t name)) (λ e.
        if meter.is_not_found e
        then errorf "node metrics not found for node %s" (name ∷ [])
        else wrapped "failed to get node metrics" e)
    total ←
        or_fail (call (get_node name) (λ t. meter.memory_capacity t name))
          (λ e. wrapped "failed to get node information" e)
    return (meter.percent used.memory total)

  -- The loop over the pods; one with no metrics is passed over.
  unfoldable pub collect :
      (ContainerUsage → Option ℕ) → List PodUsage → List Pod → Proc (Rates Rate) (List PodUsage)
  unfolding total_usage add_usage
  collect of found [] = return found
  collect of found (p ∷ ps) =
      on_error
        (call (get_pod_metrics p.namespace p.name) (λ t. meter.pod_metrics t p.namespace p.name))
        (λ _. collect of found ps)
        (λ cs. collect of (found ++ (record { pod = p; usage = total_usage of 0 cs }) ∷ []) ps)

  unfoldable pub list_on_node : Bytes → Proc (Rates Rate) (List Pod)
  list_on_node name =
      or_fail (call (list_pods (on_node name)) (λ t. env.list_pods t (on_node name)))
        (λ e. wrapped "failed to list pods on node" e)

  -- The pods come as they are listed, all of them.
  unfoldable pub get_top_five_pods_by_cpu : Bytes → Proc (Rates Rate) (List PodUsage)
  get_top_five_pods_by_cpu name = do pods ← list_on_node name; collect (λ c. c.cpu_cores) [] pods

  unfoldable pub get_top_five_pods_by_memory : Bytes → Proc (Rates Rate) (List PodUsage)
  get_top_five_pods_by_memory name = do
    pods ← list_on_node name
    usages ← collect (λ c. c.memory) [] pods
    let sorted = meter.sort usages
    return (if ltb 5 (length sorted) then take 5 sorted else sorted)

  -- An error of DoSSA is only logged.
  unfoldable pub migrate_away : Bytes → PodUsage → Proc (Rates Rate) (Unit {0})
  migrate_away node item =
      when (check_is_valid_namespace item.pod.namespace)
        (on_error (do_ssa item.pod node) (λ _. return tt) (λ _. return tt))

  unfoldable pub relieve_cpu : Bytes → Rate → Proc (Rates Rate) (Unit {0})
  relieve_cpu name rate = do
    pods ← get_top_five_pods_by_cpu name
    s ← gets (λ s. s)
    rates ← observe (λ t. ok (meter.walk t s.cpu_rates))
    let (least, target) = pick_least meter.less rate s.cpu_node rates
    modify (λ s. record s { cpu_node = target })
    for_each pods (migrate_away target)

  -- Here the node is chosen before the pods are listed.
  unfoldable pub relieve_memory : Bytes → Rate → Proc (Rates Rate) (Unit {0})
  relieve_memory name rate = do
    s ← gets (λ s. s)
    rates ← observe (λ t. ok (meter.walk t s.memory_rates))
    let (least, target) = pick_least meter.less rate s.memory_node rates
    modify (λ s. record s { memory_node = target })
    pods ← get_top_five_pods_by_memory name
    for_each pods (migrate_away target)

  -- Reconcile for a node that is found; the result is the time after which it runs again.
  unfoldable pub monitor_node : Node → Proc (Rates Rate) ℕ
  monitor_node node = do
    rate ← get_cpu_usage_on_node node
    modify (λ s. record s { cpu_rates = set_rate node.name rate s.cpu_rates })
    when (meter.less (meter.of_ℕ 60) rate) (relieve_cpu node.name rate)
    memory ← get_node_memory_usage_rate node.name
    modify (λ s. record s { memory_rates = set_rate node.name memory s.memory_rates })
    when (meter.less (meter.of_ℕ 70) memory) (relieve_memory node.name memory)
    return 60

  monitor_found : Option Node → Proc (Rates Rate) ℕ
  monitor_found none = return 0
  monitor_found (some node) = if node.is_control_plane then return 0 else monitor_node node

  connect : Proc (Rates Rate) (Unit {0})
  connect = do
    call new_metrics_client env.new_metrics_client
    modify (λ s. record s { has_client = true })

  -- NodeMonitorReconciler.Reconcile; an error is returned with an empty result.
  unfoldable pub reconcile_node : Bytes → Proc (Rates Rate) ℕ
  unfolding monitor_found connect
  reconcile_node name = do
    connected ← gets (λ s. s.has_client)
    when (not connected) connect
    node ← call (get_node name) (λ t. meter.node t name)
    monitor_found node
