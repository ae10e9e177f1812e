-- ===== src/Tests/Reconciled.antt =====
-- The reconciler, at a concrete cluster.
use checkpoint_operator.Base.{
  [], ◌∷◌, none, some, true, false, codes, All, ◌≡◌, refl, has_prefix, ◌=s◌,
}
use checkpoint_operator.Outcome.{ok}
use checkpoint_operator.Cluster.{in_namespace, by_selector}
use checkpoint_operator.Util.Globals.{contains}
use checkpoint_operator.Migration.{filter_pods, checkpoint_each, reconcile}
use checkpoint_operator.Migration.Filter.{
  filter_pods_named, filter_pods_specified, filter_pods_selected,
}
use checkpoint_operator.Migration.Posts.{IsTarget, posted, checkpoint_each_posts}
use checkpoint_operator.Migration.Lock.{reconcile_holds}
use checkpoint_operator.Tests.Sample.{
  cluster, web, shop, web_pod, registry_pod, web_spec, listed_spec, held,
}

filter_pods_named_example :
    (filter_pods cluster web_spec none false [] []).outcome ≡ ok (web_pod ∷ [])
unfolding ◌=s◌
filter_pods_named_example =
    filter_pods_named cluster web_spec [] [] false (web_pod ∷ registry_pod ∷ []) refl

filter_pods_specified_example :
    (filter_pods cluster listed_spec (some (in_namespace shop)) true [] []).outcome
    ≡ ok (web_pod ∷ [])
unfolding ◌=s◌
filter_pods_specified_example =
    filter_pods_specified cluster listed_spec [] [] (in_namespace shop)
      (web_pod ∷ registry_pod ∷ []) refl

filter_pods_selected_example :
    (filter_pods cluster web_spec (some (by_selector shop (codes "app=web"))) false [] []).outcome
    ≡ ok (web_pod ∷ [])
unfolding has_prefix
filter_pods_selected_example =
    filter_pods_selected cluster web_spec [] [] (by_selector shop (codes "app=web"))
      (web_pod ∷ registry_pod ∷ []) refl

checkpoint_each_posts_example :
    All
      (IsTarget (web_pod ∷ []))
      (posted (checkpoint_each cluster web_spec (web_pod ∷ []) held []).trace)
checkpoint_each_posts_example = checkpoint_each_posts cluster web_spec (web_pod ∷ []) held [] tt

reconcile_holds_example : contains web (reconcile cluster shop web [] []).globals ≡ true
reconcile_holds_example = reconcile_holds cluster shop web web_spec [] [] refl
