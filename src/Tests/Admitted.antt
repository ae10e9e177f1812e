-- ===== src/Tests/Admitted.antt =====
-- The webhook, and the life of an entry, at concrete objects.
use checkpoint_operator.Base.{
  [], trim_prefix, ◌=s◌, ◌∷◌, Any, ◌++◌, codes, Lacks, false, ◌≡◌, ◌≢◌, refl, inl, inr, arith,
}
use checkpoint_operator.Outcome.{ok}
use checkpoint_operator.Util.Globals.{contains, contains-remove_self, lookup}
use checkpoint_operator.Util.Clientset.{create_client_set}
use checkpoint_operator.Util.ImageName.{modify_checkpoint_to_image_name}
use checkpoint_operator.Proc.{◌>>=◌, on_error, for_each}
use checkpoint_operator.Webhook.{
  client_or_error, pod_exists, check_pod_name, not_processed, check_fields, check_targets,
  check_processed, validate_migration,
}
use checkpoint_operator.Webhook.Verdict.{IsWellFormed, IsFree, validate-ok}
use checkpoint_operator.Webhook.Admission.{HasTargets, validate_accepts}
use checkpoint_operator.Migration.{reconcile, Result}
use checkpoint_operator.Deploy.{deploy_message}
use checkpoint_operator.Pipeline.Names.{archive_path, archive-names}
use checkpoint_operator.Pipeline.Entries.{reconciled_is_refused, delivered_is_free}
use checkpoint_operator.Proc.{Run}
use checkpoint_operator.Util.Globals.{PodsMap}
use checkpoint_operator.Pipeline.Lifecycle.{
  History, start, then_, deploys, arrival, Delivers, accepted_only_after_arrival,
}
use checkpoint_operator.Deploy.Entries.{deploy_message_map}
use checkpoint_operator.Deploy.{checkpoint_prefix, old_pod_name}
use checkpoint_operator.Restore.{after_dash}
use checkpoint_operator.Tests.Sample.{
  cluster, arrived, web, shop, web_pod, web_spec, held, registry_pod,
}

web_spec-IsWellFormed : IsWellFormed web_spec
web_spec-IsWellFormed = record {
  pod_or_deployment = inr refl;
  pod_or_specify = inr refl;
  deployment_or_specify = inl refl;
  has_node = λ e. cc;
  has_destination = λ e. cc;
  has_namespace = λ e. cc;
}

web_spec-IsFree : IsFree web_spec []
unfolding lookup
web_spec-IsFree = record { pod = λ _. refl; listed = tt }

web_spec-HasTargets : HasTargets cluster web_spec
web_spec-HasTargets = record {
  configured = λ t. refl;
  connected = λ t. refl;
  pod = λ _ t. (web_pod, refl);
  deployment = λ _ t. (codes "app=web", refl);
  listed = tt;
}

accepted : (validate_migration cluster web_spec [] []).outcome ≡ ok tt
unfolding validate_migration check_fields check_targets check_processed client_or_error pod_exists
    check_pod_name not_processed create_client_set ◌>>=◌ on_error for_each lookup
accepted = refl

validate-ok_example : IsWellFormed web_spec × IsFree web_spec []
validate-ok_example = validate-ok cluster web_spec [] [] accepted

validate_accepts_example : (validate_migration cluster web_spec [] []).outcome ≡ ok tt
validate_accepts_example =
    validate_accepts cluster web_spec [] [] web_spec-IsWellFormed web_spec-IsFree
      web_spec-HasTargets

reconciled_is_refused_example :
    (validate_migration cluster web_spec (reconcile cluster shop web [] []).globals []).outcome
    ≢ ok tt
reconciled_is_refused_example =
    reconciled_is_refused cluster shop web web_spec web_spec [] [] [] refl refl (λ e. cc)

web-Lacks : Lacks b'_' web
web-Lacks = omega arith

delivered_is_free_example :
    contains web
      (deploy_message cluster registry_pod
        (record {
          key = codes "n2";
          value = modify_checkpoint_to_image_name (archive_path web (codes "shop-main-1.tar"));
        })
        held
        []).globals
    ≡ false
delivered_is_free_example =
    delivered_is_free cluster registry_pod web (codes "shop-main-1.tar") (codes "n2") held []
      web-Lacks

-- After the reconciliation, the image arrives; then the webhook is asked about the pod again.
abbrev reconciled : Run PodsMap Result
reconciled = reconcile cluster shop web [] []

abbrev delivered : Run PodsMap (Unit {0})
delivered = deploy_message cluster registry_pod arrived reconciled.globals reconciled.trace

abbrev history :
    History cluster reconciled.globals reconciled.trace
      (arrival registry_pod arrived ∷ [])
      delivered.globals
      delivered.trace
history = then_ start (deploys registry_pod arrived)

web_is_gone : contains web delivered.globals ≡ false
unfolding old_pod_name trim_prefix ◌=s◌
web_is_gone =
    rw (deploy_message_map cluster registry_pod arrived reconciled.globals reconciled.trace)
      (contains-remove_self web reconciled.globals)

accepted_again :
    (validate_migration cluster web_spec delivered.globals delivered.trace).outcome ≡ ok tt
accepted_again =
    validate_accepts cluster web_spec delivered.globals delivered.trace web_spec-IsWellFormed
      (record { pod = λ _. web_is_gone; listed = tt }) web_spec-HasTargets

accepted_only_after_arrival_example : Any (Delivers web) (arrival registry_pod arrived ∷ [])
accepted_only_after_arrival_example =
    accepted_only_after_arrival cluster shop web web_spec web_spec [] [] refl history accepted_again
      (inl (refl, λ e. cc))

archive-names_example :
    let image = modify_checkpoint_to_image_name (archive_path web (codes "shop-main-1.tar")) in
    (image ≡ checkpoint_prefix ++ web) × (old_pod_name image ≡ web) × (after_dash image ≡ web)
archive-names_example = archive-names web (codes "shop-main-1.tar") web-Lacks

-- The same two entries in another order, with an older one behind.
