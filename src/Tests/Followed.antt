-- ===== src/Tests/Followed.antt =====
-- The pod `web` is deployed, then the restore daemon is told.
use checkpoint_operator.Base.{[], ◌∷◌, codes, index, trim_prefix, refl, inl, ◌=s◌, ◌≡◌}
use checkpoint_operator.Outcome.{ok}
use checkpoint_operator.Cluster.{Env, Message, deadline, fetched, delete_pod, commit}
use checkpoint_operator.Cluster.Reads.{writes}
use checkpoint_operator.Kafka.{
  delete_message, consume_message, consume_loop, produce_message_to_different_topics, send,
  is_blank,
}
use checkpoint_operator.Proc.{for_each, return, give, call, gets, modify, observe, ◌>>=◌, on_error}
use checkpoint_operator.Util.Globals.{lookup}
use checkpoint_operator.Util.Clientset.{create_client_set}
use checkpoint_operator.Deploy.{
  messages_or_error, info_or_error, deploy_message, deploy_from, launch, create_new_pod,
  check_destination_namespace_exists, count_remaining, migrate_pod, old_pod_name,
  deploy_pod_on_new_node,
}
use checkpoint_operator.Util.Clientset.{through}
use checkpoint_operator.Kafka.{consume_notice, notice_loop, read_notice}
use checkpoint_operator.Restore.{after_dash, delete_old_pod, handle_notice, restore_round, main}
use checkpoint_operator.Restore.Justified.{Justified, main-Justified}
use checkpoint_operator.Pipeline.Handover.{
  World, deploys, restores, Reach, start, then_, Succeeded, WasSent,
}
use checkpoint_operator.Pipeline.Handover.Safe.{deleted_after_successor}
use checkpoint_operator.Tests.Sample.{cluster, shop, held, registry_pod}

abbrev notice_of_web : Message
notice_of_web = delete_message (codes "checkpoint-web") shop (codes "n2")

abbrev daemon_cluster : Env
daemon_cluster = record cluster { feed = λ t topic. fetched notice_of_web (ok tt) deadline }

abbrev deployed : World
deployed = record {
  vars = (deploy_pod_on_new_node cluster registry_pod held []).globals;
  operator = (deploy_pod_on_new_node cluster registry_pod held []).trace;
  daemon = [];
}

web_sent : WasSent notice_of_web deployed.operator
unfolding deploy_pod_on_new_node consume_message consume_loop messages_or_error deploy_message
    deploy_from launch create_new_pod check_destination_namespace_exists count_remaining
    produce_message_to_different_topics send create_client_set migrate_pod old_pod_name trim_prefix
    lookup is_blank for_each return give call gets modify observe info_or_error ◌>>=◌ on_error ◌=s◌
    delete_message
web_sent = inl (refl, refl)

followed :
    Reach cluster daemon_cluster
      (record deployed { daemon = (restore_round daemon_cluster {S = Unit {0}} tt []).trace })
followed = then_ (then_ (start held) (deploys registry_pod)) (restores (web_sent, tt))

deleted_after_successor_example :
    Succeeded cluster deployed.operator (restore_round daemon_cluster {S = Unit {0}} tt []).trace
deleted_after_successor_example = deleted_after_successor cluster daemon_cluster followed

-- The daemon does delete the old pod.
web_goes :
    writes (restore_round daemon_cluster {S = Unit {0}} tt []).trace
    ≡ delete_pod shop (codes "web") ∷ commit notice_of_web ∷ []
unfolding restore_round consume_notice notice_loop read_notice handle_notice delete_old_pod
    after_dash create_client_set through return give call observe index ◌>>=◌ on_error
    delete_message
web_goes = refl

main-Justified_example : Justified daemon_cluster (main daemon_cluster 2 held []).trace
main-Justified_example = main-Justified daemon_cluster 2 held [] tt

-- In two rounds the daemon deletes it twice, as the message is offered twice.
main_deletes :
    writes (main daemon_cluster 2 held []).trace
    ≡ delete_pod shop (codes "web")
      ∷ commit notice_of_web
      ∷ delete_pod shop (codes "web")
      ∷ commit notice_of_web
      ∷ []
unfolding main restore_round consume_notice notice_loop read_notice handle_notice delete_old_pod
    after_dash create_client_set through return give call observe index ◌>>=◌ on_error
    delete_message
main_deletes = refl
