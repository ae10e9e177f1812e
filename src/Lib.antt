-- ===== src/Lib.antt =====
-- CheckpointOperator migrates pods of a Kubernetes cluster: a running container is checkpointed by
-- its node's kubelet, the checkpoint becomes an image in a registry, and a pod is started from it on
-- another node. This library models the Go code that decides what is done.
--
-- The program's parts, and the files that model them:
--
-- * practice/api/v1alpha1/migration_webhook.go (validateMigration, createClientSet) decides which
--   Migration objects are admitted: Webhook. It reads the table of the pods that are being migrated,
--   ProcessPodsMap of practice/util/global.go: Util/Globals.
-- * practice/internal/controller/migration_controller.go (Reconcile, checkpointDeployment,
--   checkpointSinglePod, filterPods) enters a Migration's pods in that table, asks the kubelets for
--   checkpoints and starts the jobs that make images of them: Migration. It calls
--   practice/handlers/checkpoint.go (Kubelet), practice/handlers/registry.go (RegistryIp),
--   practice/handlers/buildah.go (Buildah), practice/util/check_origin_image.go (Util/ImageCheck) and
--   practice/util/clientset.go (Util/Clientset).
-- * practice/testwebhook is told by the registry which images have arrived, and sends a message under
--   the name of the node of the registry pod that took it: Events.
-- * practice/handlers/deploy-new-pod.go (DeployPodOnNewNode) takes the messages for a node, takes the
--   pods' entries out of the table, starts the new pods, and tells the restore daemon: Deploy. It uses
--   practice/util/service.go (Util/HostPort) and practice/util/checkpoint_to_image.go
--   (Util/ImageName).
-- * practice/handlers/restore deletes the old pod once its successor is announced: Restore.
-- * practice/handlers/kafka.go, practice/testwebhook/kafkaproducer/producer.go and
--   practice/handlers/restore/kafka/consumer.go are the code around the broker's client: Kafka.
-- * practice/internal/controller/daemonset_controller.go (Reconcile) runs DeployPodOnNewNode for all
--   registry pods at once: Daemons. Daemons/Code has that function and what it calls a second time, as
--   a goroutine made of steps (Threads), and Daemons/Alone compares the two.
-- * Pipeline has what several of these do together: the names on their way, the life of an entry of the
--   table, a migration from end to end, the operator beside the restore daemon (Handover), and the table as
--   an abstract map (Views).
-- * practice/internal/controller/nodemonitor_controller.go looks for overloaded nodes, and
--   practice/handlers/cr-decoder.go (DoSSA) applies a Migration for a pod of such a node: Monitor.
--   ServerSideApply has DoSSA once more, with each of its calls, and its YAML as a document (Yaml).
-- * practice/api/v1alpha1/zz_generated.deepcopy.go copies the objects of migration_types.go: DeepCopy,
--   with the arrays that slices share as an explicit memory (DeepCopy/Memory).
-- * practice/cmd/main.go makes the manager, registers the controllers and the webhook, and starts it:
--   Manager, with the SetupWithManager of each and the kinds of the scheme.
-- * practice/validationwebhook is a server of its own that labels pods: Mutation. practice/util/pod.go
--   is Util/Pods, which no other part calls; Trials has the programs practice/nodemetrics_test,
--   practice/kafka-producer and practice/kafka-client, which try the metrics and the broker by hand.
--
-- How the code is modelled. A Go string is a list of bytes (Base). A call of a Go function has an
-- outcome: a value, a non-nil error, or a run-time panic (Outcome). A function is a Proc (Proc): from
-- the package's variables and the trace of the calls made so far to an outcome, the variables and the
-- trace as they are then, so what was changed or called before an error stays. The calls to the
-- outside are those of Cluster.Call: to the API server, the kubelets and the broker. What answers them
-- is an Env (Cluster), whose answers may depend on the whole trace; it stands for client-go,
-- controller-runtime, net/http, kafka-go and the clock, of which nothing else is assumed. Errors of a
-- client library carry their text, since the code compares it. Log output is left out.
--
-- Bounds and fuel. The loop of CheckJobStatus counts `times` up to checkJobStatusTime: poll_job is
-- structural on 31 - times, which is 0 just where the source gives up. A consumer's loop runs until
-- its ten seconds are over; what it meets until then is a finite Feed that the outside decides. The
-- decimal digits of a port are made with as much fuel as the number itself plus one, which has no
-- fewer than its digits. How often CheckPodStatus
-- may look before its time is over is an argument, and so is how many rounds the restore daemon makes. All other loops run over a list. The limits of a new pod,
-- int64(float64(n) * 0.2), are an operation of Env, since they are rounded in floating point. The
-- monitor's rates are a type of its own with the operations of Monitor.Meter, which also has the
-- order of sort.Slice and of a walk over a map; sums of usages are int64, by their bits.
--
-- Goroutines. A call of the outside, or one access to ProcessPodsMap, is a step that no other goroutine
-- interrupts; between two steps any other may run (Threads/Pool). What a consumer will meet is fixed
-- when it starts. The operator's answers in Pipeline/Lifecycle are whole: one at a time; so are the
-- deployments and the daemon's rounds in Pipeline/Handover.
--
-- Not modelled: the HTTP, JSON, YAML and flag libraries, the programs in practice/benchmark, which
-- print what the cluster holds, and the shell helpers of the end-to-end tests. Left out are the
-- logger's options and the constant parts of the jobs' pod templates (volumes, security contexts).
--
-- Rules for code: Proc.Keeps (an invariant passes through a run, however it ends), Proc.Works (a run
-- succeeds), Proc.Runs (it succeeds with this trace), Proc.Respects (it cannot tell related variables
-- apart), and for goroutines Threads.Safe and Threads.Refines. Tests has the runs at concrete data.
pub mod Base
pub mod Outcome
pub mod Cluster
pub mod Proc
pub mod Util
pub mod Webhook
pub mod Kafka
pub mod Deploy
pub mod Kubelet
pub mod RegistryIp
pub mod Buildah
pub mod Migration
pub mod Restore
pub mod Events
pub mod Threads
pub mod Daemons
pub mod Manager
pub mod Pipeline
pub mod Monitor
pub mod ServerSideApply
pub mod Mutation
pub mod Trials
pub mod DeepCopy
pub mod Tests
