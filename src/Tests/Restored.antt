-- ===== src/Tests/Restored.antt =====
-- The restore daemon, at a concrete cluster.
use checkpoint_operator.Base.{[], ◌∷◌, codes, ◌≡◌, ◌⊎◌}
use checkpoint_operator.Cluster.{delete_pod}
use checkpoint_operator.Cluster.Reads.{writes}
use checkpoint_operator.Kafka.{Notice}
use checkpoint_operator.Restore.{after_dash, handle_notice}
use checkpoint_operator.Restore.Deletes.{FoundFirst, handle_notice_deletes}
use checkpoint_operator.Tests.Sample.{cluster, shop, held}

abbrev notice : Notice
notice = record { pod = codes "checkpoint-web"; namespace = shop; node = codes "n2" }

handle_notice_deletes_example :
    let r = handle_notice cluster notice held [] in
    (writes r.trace ≡ [])
    ⊎ ((writes r.trace ≡ delete_pod shop (after_dash (codes "checkpoint-web")) ∷ [])
        × FoundFirst cluster r.trace)
handle_notice_deletes_example = handle_notice_deletes cluster notice held []
