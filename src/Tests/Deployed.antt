-- ===== src/Tests/Deployed.antt =====
-- The arrival of an image, at a concrete cluster.
use checkpoint_operator.Base.{[], ◌∷◌, some, List, map, Bytes, codes, ◌≡◌, refl}
use checkpoint_operator.Outcome.{ok, panic, err, wrapped, deadline_exceeded}
use checkpoint_operator.Cluster.Reads.{writes}
use checkpoint_operator.Proc.{◌>>=◌, on_error, modify, observe, call, return}
use checkpoint_operator.Util.Globals.{PodsMap, MigrationInfo, lookup, remove}
use checkpoint_operator.Util.Clientset.{create_client_set}
use checkpoint_operator.Util.ImageCheck.{
  check_job, pull_commands, cut_last_four, check_image_id_exist_on_node, check_job_status,
}
use checkpoint_operator.Util.ImageCheck.Command.{Pulls, check_image_id_exist_on_node-Pulls}
use checkpoint_operator.Util.ImageCheck.Polls.{
  polls, hurried, JustSucceeded, check_job_status_waits,
}
use checkpoint_operator.Base.{◌≤◌, trim_prefix, ◌=s◌}
use checkpoint_operator.Kafka.{is_blank, consume_message, produce_message_to_different_topics, send}
use checkpoint_operator.Deploy.{
  old_pod_name, count_remaining, create_new_pod, check_destination_namespace_exists, launch,
  deploy_from, migrate_pod, info_or_error, deploy_message, deploy_pod_on_new_node,
}
use checkpoint_operator.Deploy.Launched.{Deployed, deploy_message-Deployed}
use checkpoint_operator.Deploy.Entries.{deploy_message_map}
use checkpoint_operator.Deploy.Dropped.{deploy_pod_on_new_node_drops}
use checkpoint_operator.Deploy.Delivered.{Serves}
use checkpoint_operator.Deploy.Completed.{Awaited, Completes, deploy_pod_on_new_node-Completes}
use checkpoint_operator.Util.HostPort.{get_pod_host_port, host_port_from, decimal}
use checkpoint_operator.RegistryIp.{return_registry_ip}
use checkpoint_operator.RegistryIp.Pick.{return_registry_ip-eq}
use checkpoint_operator.Cluster.{Call, Job, NewJob, create_job, create_pod, write}
use checkpoint_operator.Base.Int.{pos, sub_ℕ}
use checkpoint_operator.Kafka.{delete_pod_topic, delete_message}
use checkpoint_operator.Tests.Sample.{
  cluster, hasty, registry_pod, web_pod, held, arrived, web_info,
}

deployed : (deploy_message cluster registry_pod arrived held []).outcome ≡ ok tt
unfolding deploy_message deploy_from launch create_new_pod check_destination_namespace_exists
    count_remaining info_or_error old_pod_name trim_prefix lookup modify create_client_set ◌>>=◌
    on_error produce_message_to_different_topics send ◌=s◌
deployed = refl

deploy_message-Deployed_example :
    (info : MigrationInfo) × (lookup (old_pod_name arrived.value) held ≡ some info)
    × Deployed cluster registry_pod arrived info []
        (writes (deploy_message cluster registry_pod arrived held []).trace)
deploy_message-Deployed_example =
    deploy_message-Deployed cluster registry_pod arrived held [] deployed

-- The pod that it creates.
created :
    writes (deploy_message cluster registry_pod arrived held []).trace
    ≡ write delete_pod_topic (delete_message (codes "checkpoint-web") (codes "shop") (codes "n2"))
      ∷ create_pod (codes "shop2") (record {
        name = codes "checkpoint-web";
        image = codes "10.0.0.2:30010/checkpoint-web:latest";
        cpu_request_milli = 1;
        memory_request = 4194304;
        cpu_limit_milli = pos 600;
        memory_limit = pos 1000000;
        node_name = codes "n2";
      })
      ∷ []
unfolding deploy_message deploy_from launch create_new_pod check_destination_namespace_exists
    count_remaining info_or_error old_pod_name trim_prefix lookup modify create_client_set ◌>>=◌
    on_error produce_message_to_different_topics send ◌=s◌ migrate_pod get_pod_host_port
    host_port_from decimal call return sub_ℕ
created = refl

deploy_message_map_example :
    (deploy_message cluster registry_pod arrived held []).globals
    ≡ remove (old_pod_name (codes "checkpoint-web")) held
deploy_message_map_example = deploy_message_map cluster registry_pod arrived held []

deploy_pod_on_new_node_drops_example :
    ((deploy_pod_on_new_node hasty registry_pod held []).outcome
      ≡ err (wrapped "failed to consume message" deadline_exceeded))
    × ((deploy_pod_on_new_node hasty registry_pod held []).globals ≡ held)
    × ((deploy_pod_on_new_node hasty registry_pod held []).trace
        ≡ (consume_message hasty (codes "n2") held []).trace)
deploy_pod_on_new_node_drops_example =
    deploy_pod_on_new_node_drops hasty registry_pod held [] deadline_exceeded (refl, tt) refl

has_client : (create_client_set cluster {S = PodsMap} held []).outcome ≡ ok tt
unfolding create_client_set ◌>>=◌ on_error
has_client = refl

abbrev args_of : Call → List Bytes
args_of (create_job namespace job) = job.args
args_of c = []

abbrev images : List Bytes
images = codes "nginx" ∷ codes "redis" ∷ []

check_image_id_exist_on_node-Pulls_example :
    let client = (create_client_set cluster held []).trace in
    let r = check_image_id_exist_on_node cluster images (codes "n2") held [] in
    let none_listed = check_image_id_exist_on_node cluster [] (codes "n2") held [] in
    ((job : NewJob) × Pulls (codes "nginx") (codes "redis" ∷ []) (codes "n2") job
      × (r.trace ≡ create_job (codes "docker-registry") job ∷ client)
      × (r.outcome ≡ ok (record { name = job.name; succeeded = 0 })))
    × ((none_listed.outcome ≡ panic) × (none_listed.trace ≡ client))
check_image_id_exist_on_node-Pulls_example =
    check_image_id_exist_on_node-Pulls cluster (codes "n2") (codes "nginx") (codes "redis" ∷ [])
      held [] has_client

-- What it asks for.
pulled :
    map args_of (check_image_id_exist_on_node cluster images (codes "n2") held []).trace
    ≡ (codes "-c" ∷ codes "buildah pull nginx && buildah pull redis" ∷ []) ∷ [] ∷ [] ∷ []
unfolding check_image_id_exist_on_node check_job pull_commands cut_last_four create_client_set
    observe call ◌>>=◌ on_error
pulled = refl

check_job_status_waits_example :
    let r = check_job_status cluster {S = PodsMap} (codes "check") held [] in
    (polls r.trace ≤ 32)
    × (hurried r.trace ≡ 0)
    × (r.outcome ≡ ok tt → JustSucceeded cluster (codes "check") r.trace)
check_job_status_waits_example = check_job_status_waits cluster (codes "check") held []

cluster-Serves : Serves cluster arrived web_info
cluster-Serves = record {
  configured = λ t. refl;
  connected = λ t. refl;
  measured = λ t. refl;
  node = λ t. (record { cpu_milli = 4000; memory = 8000000 }, refl);
  usage = λ t. (record { cpu_milli = 1000; memory = 3000000 }, refl);
  looks = λ t e. cc;
  creates = λ t. refl;
  takes_pod = λ t p. refl;
  takes_message = λ t n. refl;
}

has_entry : lookup (old_pod_name arrived.value) held ≡ some web_info
unfolding lookup old_pod_name trim_prefix ◌=s◌
has_entry = refl

return_registry_ip-eq_example :
    (return_registry_ip cluster (codes "n2") held []).outcome ≡ ok registry_pod.pod_ip
unfolding ◌=s◌
return_registry_ip-eq_example =
    return_registry_ip-eq cluster (codes "n2") (web_pod ∷ registry_pod ∷ []) held [] refl

abbrev jobs : List Job
jobs = (record { name = codes "buildah-job-1"; succeeded = 1 }) ∷ []

web-Awaited : Awaited cluster (arrived ∷ []) held
web-Awaited = ((web_info, has_entry, cluster-Serves), tt)

deploy_pod_on_new_node-Completes_example :
    Completes (arrived ∷ []) held [] (deploy_pod_on_new_node cluster registry_pod held [])
unfolding is_blank ◌=s◌
deploy_pod_on_new_node-Completes_example =
    deploy_pod_on_new_node-Completes cluster registry_pod held [] (refl, (refl, tt)) refl
      web-Awaited

-- The address of the registry pod, with the port of its container.
registry_address : get_pod_host_port registry_pod ≡ codes "10.0.0.2:30010"
unfolding get_pod_host_port host_port_from decimal
registry_address = refl
