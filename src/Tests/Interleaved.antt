-- ===== src/Tests/Interleaved.antt =====
-- The goroutines of the daemon set's reconciler, at a concrete cluster.
use checkpoint_operator.Base.{ℕ, true, length, [], ◌∷◌, List, map, trim_prefix, ◌=s◌, ◌≡◌, refl}
use checkpoint_operator.Cluster.{Pod, Trace, list_pods}
use checkpoint_operator.Cluster.Reads.{writes}
use checkpoint_operator.Proc.{call, gets, modify, observe}
use checkpoint_operator.Util.Globals.{lookup, remove}
use checkpoint_operator.Kafka.{is_blank}
use checkpoint_operator.RegistryIp.{registry_pods}
use checkpoint_operator.Deploy.{info_or_error, messages_or_error, old_pod_name}
use checkpoint_operator.Threads.{atomic, ◌>>=◌, on_error, for_each}
use checkpoint_operator.Threads.Pool.{has_ended}
use checkpoint_operator.Threads.Pool.Schedule.{Reached, follow}
use checkpoint_operator.Daemons.{goroutines}
use checkpoint_operator.Daemons.Code
use checkpoint_operator.Daemons.Announced.{AnnouncedAfter, goroutines_announce}
use checkpoint_operator.Tests.Sample.{cluster, web_pod, registry_pod, held}

-- As the cluster lists them; no message is for the node of the first.
abbrev listed : List Pod
listed = web_pod ∷ registry_pod ∷ []

abbrev turns : List ℕ
turns =
    0 ∷ 1 ∷ 0 ∷ 1 ∷ 1 ∷ 1 ∷ 0 ∷ 1 ∷ 1 ∷ 1 ∷ 1 ∷ 1 ∷ 1 ∷ 1 ∷ 1 ∷ 1 ∷ 1 ∷ 1 ∷ 1 ∷ 1 ∷ 1 ∷ 1 ∷ 1 ∷ 1
    ∷ 1 ∷ 1 ∷ 0 ∷ 0 ∷ []

abbrev before : Trace
before = list_pods registry_pods ∷ []

abbrev interleaved : Reached (goroutines cluster listed) held before
interleaved = follow (goroutines cluster listed) held before turns

goroutines_announce_example : AnnouncedAfter cluster interleaved.globals interleaved.trace
goroutines_announce_example = goroutines_announce cluster listed interleaved.reach tt

-- In this order both goroutines come to their ends: a message is committed, its image is deployed and
-- announced, and the entry is gone.
came_to :
    (map has_ended interleaved.threads ≡ true ∷ true ∷ [])
    × (length (writes interleaved.trace) ≡ 3)
    × (interleaved.globals ≡ [])
unfolding follow Code.deploy_pod_on_new_node Code.consume_message Code.consume_loop
    Code.deploy_message Code.deploy_from Code.launch Code.create_new_pod
    Code.check_destination_namespace_exists Code.count_remaining Code.create_client_set
    Code.produce_message_to_different_topics ◌>>=◌ on_error for_each atomic call gets modify observe
    lookup remove is_blank ◌=s◌ info_or_error messages_or_error old_pod_name trim_prefix
came_to = (refl, refl, refl)
