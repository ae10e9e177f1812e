-- ===== src/Monitor/Idle.antt =====
-- A node that is not loaded.
use checkpoint_operator.Base.{ℕ, ◌∷◌, false, ◌≡◌, arith}
use checkpoint_operator.Outcome.{ok}
use checkpoint_operator.Cluster.{Env, Trace, Resources, get_node_metrics, get_node}
use checkpoint_operator.Proc.{◌>>=◌, on_error, modify}
use checkpoint_operator.Monitor.{
  Node, Meter, Rates, get_cpu_usage_on_node, get_node_memory_usage_rate, monitor_node, set_rate,
}

-- Where the metrics and the capacity of a node are known, and neither rate is above its threshold,
-- the run records both rates, makes no call but the three that read them, leaves the chosen nodes as
-- they are and asks for the next run in a minute.
monitor_node_idle :
    {Rate : Type 0} (env : Env) (meter : Meter Rate) (node : Node) (used : Resources) (total : ℕ)
    (s : Rates Rate) (t : Trace)
    → ((t : Trace) → env.node_usage t node.name ≡ ok used)
    → ((t : Trace) → meter.memory_capacity t node.name ≡ ok total)
    → meter.less (meter.of_ℕ 60) (meter.percent used.cpu_milli node.allocatable_cpu_milli) ≡ false
    → meter.less (meter.of_ℕ 70) (meter.percent used.memory total) ≡ false
    → let r = monitor_node env meter node s t in
      (r.outcome ≡ ok 60)
      × (r.globals ≡ record s {
        cpu_rates =
            set_rate node.name
              (meter.percent used.cpu_milli node.allocatable_cpu_milli)
              s.cpu_rates;
        memory_rates = set_rate node.name (meter.percent used.memory total) s.memory_rates;
      })
      × (r.trace ≡ get_node node.name ∷ get_node_metrics node.name ∷ get_node_metrics node.name ∷ t)
unfolding monitor_node get_cpu_usage_on_node get_node_memory_usage_rate ◌>>=◌ on_error modify
monitor_node_idle env meter node used total s t usage capacity cpu memory =
    let read = get_node_metrics node.name ∷ t in
    let again = get_node_metrics node.name ∷ read in
    ground (arith, usage t, usage read, capacity again)
