-- ===== src/Cluster.antt =====
-- The objects of the Kubernetes API that the program reads and writes, as far as it uses them,
-- the calls that it makes to the outside, and what answers them.
pub mod Reads
use checkpoint_operator.Base.{ℕ, List, Bytes}
use checkpoint_operator.Base.Int.{ℤ}
use checkpoint_operator.Outcome.{Outcome}

pub record Container : Type 0 where
  pub name : Bytes
  pub host_ports : List ℕ

-- corev1.Pod; `image_ids` are those of Status.ContainerStatuses.
pub record Pod : Type 0 where
  pub name : Bytes
  pub namespace : Bytes
  pub node_name : Bytes
  pub containers : List Container
  pub phase : Bytes
  pub host_ip : Bytes
  pub pod_ip : Bytes
  pub image_ids : List Bytes

-- The pod that `DeployPodOnNewNode` asks for: its one container has the pod's name.
pub record NewPod : Type 0 where
  pub name : Bytes
  pub image : Bytes
  pub cpu_request_milli : ℕ
  pub memory_request : ℕ
  pub cpu_limit_milli : ℤ
  pub memory_limit : ℤ
  pub node_name : Bytes

-- batchv1.Job as it comes back, and as it is asked for.
pub record Job : Type 0 where
  pub name : Bytes
  pub succeeded : ℕ

pub record NewJob : Type 0 where
  pub name : Bytes
  pub image : Bytes
  pub command : List Bytes
  pub args : List Bytes
  pub node_name : Bytes

-- MigrationSpec of api/v1alpha1/migration_types.go.
pub record MigrationSpec : Type 0 where
  pub pod_name : Bytes
  pub deployment : Bytes
  pub namespace : Bytes
  pub destination_node : Bytes
  pub destination_namespace : Bytes
  pub specify : List Bytes

-- kafka.Message
pub record Message : Type 0 where
  pub key : Bytes
  pub value : Bytes

pub record Response : Type 0 where
  pub status_code : ℕ
  pub body : Bytes

-- Allocatable and used resources, in millicores and bytes.
pub record Resources : Type 0 where
  pub cpu_milli : ℕ
  pub memory : ℕ

-- The pods that a List call asks for.
pub data Query : Type 0 where
  everywhere : Query
  in_namespace : Bytes → Query
  by_selector : Bytes → Bytes → Query
  -- by the field spec.nodeName, in all namespaces
  on_node : Bytes → Query

-- What the loop round `FetchMessage` meets until the ten seconds of its context are over. A round
-- begins with `select`, which may find the context done; else it fetches.
pub data Feed : Type 0 where
  -- `select` finds the context done
  expired : Feed
  -- the fetch fails, and the context's error is DeadlineExceeded
  deadline : Feed
  -- the fetch fails otherwise
  failed : Feed → Feed
  -- a message, with the outcome of committing it
  fetched : Message → Outcome (Unit {0}) → Feed → Feed

-- A call to the outside, with its arguments.
pub data Call : Type 0 where
  in_cluster_config : Call
  build_config : Bytes → Call
  new_clientset : Call
  new_metrics_client : Call
  get_pod : Bytes → Bytes → Call
  list_pods : Query → Call
  create_pod : Bytes → NewPod → Call
  delete_pod : Bytes → Bytes → Call
  get_namespace : Bytes → Call
  create_namespace : Bytes → Call
  get_deployment : Bytes → Bytes → Call
  get_migration : Bytes → Bytes → Call
  create_job : Bytes → NewJob → Call
  get_job : Bytes → Bytes → Call
  list_jobs : Bytes → Call
  delete_job : Bytes → Bytes → Call
  get_node : Bytes → Call
  get_node_metrics : Bytes → Call
  get_pod_metrics : Bytes → Bytes → Call
  apply_migration : MigrationSpec → Call
  post : Bytes → Call
  fetch : Call
  commit : Message → Call
  write : Bytes → Message → Call
  sleep : ℕ → Call

-- The calls made so far, the newest first.
abbrev pub Trace : Type 0
Trace = List Call

-- The answers of the outside. Each may depend on all that was called before, so an environment is
-- any deterministic cluster, broker, clock and file system.
pub record Env : Type 0 where
  pub home : Bytes
  pub now : Trace → Bytes
  pub in_cluster_config : Trace → Outcome (Unit {0})
  pub build_config : Trace → Bytes → Outcome (Unit {0})
  pub new_clientset : Trace → Outcome (Unit {0})
  pub new_metrics_client : Trace → Outcome (Unit {0})
  pub get_pod : Trace → Bytes → Bytes → Outcome Pod
  pub list_pods : Trace → Query → Outcome (List Pod)
  pub create_pod : Trace → Bytes → NewPod → Outcome (Unit {0})
  pub delete_pod : Trace → Bytes → Bytes → Outcome (Unit {0})
  pub get_namespace : Trace → Bytes → Outcome (Unit {0})
  pub create_namespace : Trace → Bytes → Outcome (Unit {0})
  -- the selector of the deployment, as text
  pub get_deployment : Trace → Bytes → Bytes → Outcome Bytes
  -- metav1.LabelSelectorAsSelector
  pub label_selector : Bytes → Outcome Bytes
  pub get_migration : Trace → Bytes → Bytes → Outcome MigrationSpec
  pub create_job : Trace → Bytes → NewJob → Outcome Job
  pub get_job : Trace → Bytes → Bytes → Outcome Job
  pub list_jobs : Trace → Bytes → Outcome (List Job)
  pub delete_job : Trace → Bytes → Bytes → Outcome (Unit {0})
  pub allocatable : Trace → Bytes → Outcome Resources
  pub node_usage : Trace → Bytes → Outcome Resources
  -- tls.LoadX509KeyPair and os.ReadFile on the files of the kubelet's client
  pub load_key_pair : Outcome (Unit {0})
  pub read_ca_file : Outcome (Unit {0})
  -- http.NewRequest, which fails where the URL does not parse
  pub new_request : Bytes → Outcome (Unit {0})
  pub post : Trace → Bytes → Outcome Response
  -- io.ReadAll and json.Unmarshal of the kubelet's answer: the field `items`
  pub read_all : Response → Outcome Bytes
  pub unmarshal_items : Bytes → Outcome (List Bytes)
  pub feed : Trace → Bytes → Feed
  pub write : Trace → Bytes → Message → Outcome (Unit {0})
  -- float64 arithmetic of the limits: int64(float64(n) * 0.2)
  pub fifth : ℤ → ℤ
