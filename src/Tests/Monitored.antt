-- ===== src/Tests/Monitored.antt =====
-- The monitor, with rates that are whole numbers.
use Prim.Native.Nat.{◌/◌}
use checkpoint_operator.Base.{ℕ, ◌*◌, [], ◌∷◌, some, false, codes, ltb, All, arith}
use checkpoint_operator.Outcome.{ok}
use checkpoint_operator.Monitor.{Meter, Rates, pick_least, reconcile_node}
use checkpoint_operator.Monitor.Least.{IsStrict, IsLeast, pick_least-IsLeast}
use checkpoint_operator.Monitor.Applied.{IsAllowed, applied, reconcile_node_applies}
use checkpoint_operator.Monitor.{PodUsage, migrate_away, check_is_valid_namespace}
use checkpoint_operator.Monitor.Moved.{for_each-migrate_away}
use checkpoint_operator.Cluster.{apply_migration}
use checkpoint_operator.Proc.{for_each}
use checkpoint_operator.Base.{refl, ◌=s◌, ◌≡◌, List}
use checkpoint_operator.Tests.Sample.{cluster, web_pod, registry_pod}

abbrev pub whole : Meter ℕ
whole = record {
  less = ltb;
  of_ℕ = λ n. n;
  percent = λ a b. 100 * a / b;
  node = λ t name.
      ok (some (record { name = name; is_control_plane = false; allocatable_cpu_milli = 1500 }));
  memory_capacity = λ t name. ok 4000000;
  is_not_found = λ e. false;
  pod_metrics = λ t namespace name. ok ((record { cpu_cores = some 1; memory = some 1000 }) ∷ []);
  sort = λ items. items;
  walk = λ t rates. rates;
  prepare = λ t spec. ok tt;
  apply = λ t spec. ok tt;
}

abbrev pub fresh : Rates ℕ
fresh = record {
  has_client = false;
  cpu_rates = (codes "n2", 20) ∷ [];
  memory_rates = [];
  cpu_node = [];
  memory_node = [];
}

ltb-IsStrict : IsStrict ltb
ltb-IsStrict = record {
  irreflexive = λ a. ground arith;
  transitive = λ a b c h k. ground (arith, h, k);
}

pick_least-IsLeast_example :
    IsLeast ltb 66 [] ((codes "n1", 66) ∷ (codes "n2", 20) ∷ (codes "n3", 35) ∷ []) (20, codes "n2")
unfolding pick_least
pick_least-IsLeast_example =
    pick_least-IsLeast ltb ltb-IsStrict 66 []
      ((codes "n1", 66) ∷ (codes "n2", 20) ∷ (codes "n3", 35) ∷ [])

reconcile_node_applies_example :
    All IsAllowed (applied (reconcile_node cluster whole (codes "n1") fresh []).trace)
reconcile_node_applies_example = reconcile_node_applies cluster whole (codes "n1") fresh [] tt

abbrev loaded : List PodUsage
loaded = (record { pod = web_pod; usage = 900 }) ∷ (record { pod = registry_pod; usage = 1 }) ∷ []

for_each-migrate_away_example :
    let r = for_each loaded (migrate_away cluster whole (codes "n2")) fresh [] in
    (r.outcome ≡ ok tt)
    × (r.globals ≡ fresh)
    × (r.trace
        ≡ apply_migration (record {
          pod_name = codes "web";
          deployment = [];
          namespace = codes "shop";
          destination_node = codes "n2";
          destination_namespace = codes "shop";
          specify = [];
        })
          ∷ [])
unfolding check_is_valid_namespace ◌=s◌
for_each-migrate_away_example =
    for_each-migrate_away cluster whole (λ t spec. refl) (λ t spec e. cc) (codes "n2") loaded fresh
      []
