-- ===== src/Tests/Sample.antt =====
-- A cluster in which a pod `web` on the node `n1` is migrated to `n2`.
use Prim.Native.Nat.{◌/◌}
use checkpoint_operator.Base.{suc, ◌-◌, [], ◌∷◌, ◌++◌, Bytes, codes, ◌==◌, if◌then◌else◌}
use checkpoint_operator.Base.Int.{ℤ, pos, negsuc}
use checkpoint_operator.Outcome.{ok, err, api}
use checkpoint_operator.Cluster.{
  Env, Pod, Message, MigrationSpec, Feed, fetched, failed, deadline, expired,
}
use checkpoint_operator.Util.Globals.{PodsMap, MigrationInfo}
use checkpoint_operator.Util.ImageName.{checkpoint_dir}

abbrev pub web : Bytes
web = codes "web"

abbrev pub shop : Bytes
shop = codes "shop"

abbrev pub web_pod : Pod
web_pod = record {
  name = web;
  namespace = shop;
  node_name = codes "n1";
  containers = (record { name = codes "main"; host_ports = [] }) ∷ [];
  phase = codes "Running";
  host_ip = codes "10.0.0.1";
  pod_ip = codes "10.244.1.9";
  image_ids = codes "nginx" ∷ codes "redis" ∷ [];
}

abbrev pub registry_pod : Pod
registry_pod = record {
  name = codes "registry";
  namespace = codes "docker-registry";
  node_name = codes "n2";
  containers = (record { name = codes "registry"; host_ports = 30010 ∷ [] }) ∷ [];
  phase = codes "Running";
  host_ip = codes "10.0.0.2";
  pod_ip = codes "10.244.2.5";
  image_ids = [];
}

abbrev pub web_spec : MigrationSpec
web_spec = record {
  pod_name = web;
  deployment = [];
  namespace = shop;
  destination_node = codes "n2";
  destination_namespace = codes "shop2";
  specify = [];
}

abbrev pub listed_spec : MigrationSpec
listed_spec = record {
  pod_name = [];
  deployment = [];
  namespace = shop;
  destination_node = codes "n2";
  destination_namespace = codes "shop2";
  specify = web ∷ [];
}

abbrev pub web_info : MigrationInfo
web_info = record {
  pod_name = [];
  deployment = [];
  source_namespace = shop;
  destination_node = codes "n2";
  destination_namespace = codes "shop2";
  specify = [];
}

abbrev pub held : PodsMap
held = (web, web_info) ∷ []

abbrev pub arrived : Message
arrived = record { key = codes "n2"; value = codes "checkpoint-web" }

abbrev pub elsewhere : Message
elsewhere = record { key = codes "n3"; value = codes "checkpoint-db" }

-- One message for another node, a fetch that fails, one for `n2`; then the time is over in a fetch.
abbrev pub arrivals : Feed
arrivals = fetched elsewhere (ok tt) (failed (fetched arrived (ok tt) deadline))

-- n / 5, towards 0
abbrev pub fifth_of : ℤ → ℤ
fifth_of (pos n) = pos (n / 5)
fifth_of (negsuc n) = let q = suc n / 5 in if q == 0 then pos 0 else negsuc (q - 1)

-- Each call succeeds.
abbrev pub cluster : Env
cluster = record {
  home = codes "/root";
  now = λ t. codes "2024-11-25-10-00-00-000";
  in_cluster_config = λ t. ok tt;
  build_config = λ t path. ok tt;
  new_clientset = λ t. ok tt;
  new_metrics_client = λ t. ok tt;
  get_pod = λ t namespace name. ok web_pod;
  list_pods = λ t query. ok (web_pod ∷ registry_pod ∷ []);
  create_pod = λ t namespace pod. ok tt;
  delete_pod = λ t namespace name. ok tt;
  get_namespace = λ t name. ok tt;
  create_namespace = λ t name. ok tt;
  get_deployment = λ t namespace name. ok (codes "app=web");
  label_selector = λ text. ok text;
  get_migration = λ t namespace name. ok web_spec;
  create_job = λ t namespace job. ok (record { name = job.name; succeeded = 0 });
  get_job = λ t namespace name. ok (record { name = name; succeeded = 1 });
  list_jobs = λ t namespace. ok ((record { name = codes "buildah-job-1"; succeeded = 1 }) ∷ []);
  delete_job = λ t namespace name. ok tt;
  allocatable = λ t node. ok (record { cpu_milli = 4000; memory = 8000000 });
  node_usage = λ t node. ok (record { cpu_milli = 1000; memory = 3000000 });
  load_key_pair = ok tt;
  read_ca_file = ok tt;
  new_request = λ url. ok tt;
  post = λ t url. ok (record { status_code = 200; body = codes "{}" });
  read_all = λ response. ok response.body;
  unmarshal_items = λ body. ok ((checkpoint_dir ++ codes "checkpoint-web_shop-main-1.tar") ∷ []);
  feed = λ t topic. arrivals;
  write = λ t topic m. ok tt;
  fifth = fifth_of;
}

-- The loop of the consumer finds its time over before a fetch.
abbrev pub hasty : Env
hasty = record cluster { feed = λ t topic. fetched arrived (ok tt) expired }

-- Pods cannot be listed.
abbrev pub unlisted : Env
unlisted = record cluster { list_pods = λ t query. err (api (codes "forbidden")) }
