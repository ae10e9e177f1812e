-- ===== src/Tests/Consumed.antt =====
-- The messages of the broker, at concrete feeds.
use checkpoint_operator.Base.{[], ◌∷◌, none, codes, Lacks, All, ◌=s◌, ◌≡◌, refl, arith}
use checkpoint_operator.Outcome.{ok}
use checkpoint_operator.Cluster.{write}
use checkpoint_operator.Kafka.{my_topic}
use checkpoint_operator.Util.Globals.{PodsMap}
use checkpoint_operator.Kafka.{is_blank, consume_message, delete_message, read_notice}
use checkpoint_operator.Kafka.Consumed.{consume_message-eq}
use checkpoint_operator.Kafka.Commits.{IsTakeable, committed_in, consume_message_commits}
use checkpoint_operator.Kafka.Notices.{read_notice-delete_message}
use checkpoint_operator.Events.{Event, webhook_handler}
use checkpoint_operator.Events.Reported.{webhook_handler-sent}
use checkpoint_operator.Base.{List, some}
use checkpoint_operator.Tests.Sample.{cluster, registry_pod, arrived, shop}

consume_message-eq_example :
    (consume_message cluster {S = PodsMap} (codes "n2") [] []).outcome
    ≡ ok (record { messages = arrived ∷ []; error = none })
unfolding is_blank ◌=s◌
consume_message-eq_example = consume_message-eq cluster (codes "n2") [] [] (refl, (refl, tt))

consume_message_commits_example :
    All
      (IsTakeable (codes "n2"))
      (committed_in (consume_message cluster {S = PodsMap} (codes "n2") [] []).trace)
consume_message_commits_example = consume_message_commits cluster (codes "n2") [] [] tt

shop-Lacks : Lacks b'/' shop
shop-Lacks = omega arith

read_notice-delete_message_example :
    read_notice (delete_message (codes "checkpoint-web") shop (codes "n2"))
    ≡ ok (record { pod = codes "checkpoint-web"; namespace = shop; node = codes "n2" })
read_notice-delete_message_example =
    read_notice-delete_message (codes "checkpoint-web") shop (codes "n2") shop-Lacks

abbrev pushes : List Event
pushes =
    (record {
      action = codes "push";
      media_type = codes "application/vnd.oci.image.manifest.v1+json";
      repository = codes "checkpoint-web";
      host = codes "10.244.2.5:5000";
    })
    ∷ (record {
      action = codes "pull";
      media_type = codes "application/vnd.oci.image.manifest.v1+json";
      repository = codes "checkpoint-db";
      host = codes "10.244.2.5:5000";
    })
    ∷ []

webhook_handler-sent_example :
    ((webhook_handler cluster (ok pushes) (some (registry_pod ∷ [])) []).outcome ≡ ok 200)
    × ((webhook_handler cluster (ok pushes) (some (registry_pod ∷ [])) []).trace
        ≡ write my_topic (record { key = codes "n2"; value = codes "checkpoint-web" }) ∷ [])
unfolding ◌=s◌
webhook_handler-sent_example =
    webhook_handler-sent cluster (registry_pod ∷ []) pushes [] (λ t m e. cc)
