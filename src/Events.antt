-- ===== src/Events.antt =====
-- practice/testwebhook: the registry reports its pushes, and the handler tells the operator on which
-- node an image has arrived.
pub mod Reported
use checkpoint_operator.Base.{
  ℕ, List, [], ◌∷◌, Option, none, some, Bool, true, false, ◌&&◌, ◌||◌, Bytes, codes, is_empty,
  split, ◌=s◌, if◌then◌else◌,
}
use checkpoint_operator.Outcome.{Error, Outcome, ok, err, panic, errorf}
use checkpoint_operator.Cluster.{Env, Pod, Query, by_selector, list_pods}
use checkpoint_operator.Proc.{Proc, call, return, give, gets, on_error, for_each, when, ◌>>=◌, ◌>>◌}
use checkpoint_operator.Util.Clientset.{create_client_set}
use checkpoint_operator.Util.ImageName.{first_part}
use checkpoint_operator.Kafka.{produce_message_as_is}

-- An entry of `events`, as far as the handler reads it.
pub record Event : Type 0 where
  pub action : Bytes
  pub media_type : Bytes
  pub repository : Bytes
  pub host : Bytes

-- The variable registryPodList: nil if the pods could not be listed at the start.
abbrev pub PodList : Type 0
PodList = Option (List Pod)

-- GetNodeNameByHostIP: the node of the first pod with the address.
unfoldable pub find_node : Bytes → List Pod → Bytes
find_node ip [] = []
find_node ip (p ∷ ps) = if p.pod_ip =s ip then p.node_name else find_node ip ps

-- `podList.Items` is a panic where the list is nil.
unfoldable pub get_node_name_by_host_ip : Bytes → PodList → Outcome Bytes
get_node_name_by_host_ip ip none = panic
get_node_name_by_host_ip ip (some pods) =
    let node = find_node ip pods in
    if is_empty node
    then err (errorf "can't find the node name by host IP: %s " (ip ∷ []))
    else ok node

-- A push of an image's manifest.
unfoldable pub is_manifest_push : Event → Bool
is_manifest_push e =
    e.action =s codes "push"
    && (e.media_type =s codes "application/vnd.oci.image.manifest.v1+json"
        || e.media_type =s codes "application/vnd.docker.distribution.manifest.v2+json")

-- `strings.Split(host, ":")[0]`
unfoldable pub host_ip : Bytes → Bytes
host_ip host = first_part (split host b':')

module _ (env : Env) where
  -- k8sclient.ListPods
  unfoldable pub list_registry_pods : Bytes → Bytes → Proc PodList (List Pod)
  list_registry_pods namespace selector = do
    create_client_set env
    call (list_pods (by_selector namespace selector))
        (λ t. env.list_pods t (by_selector namespace selector))

  -- An error of the broker is only logged.
  unfoldable pub report_event : Event → Proc PodList (Unit {0})
  report_event e = do
    pods ← gets (λ s. s)
    on_error (give (get_node_name_by_host_ip (host_ip e.host) pods)) (λ _. return tt)
        (λ node.
          on_error (produce_message_as_is env node e.repository) (λ _. return tt) (λ _. return tt))

  unfoldable pub handle_event : Event → Proc PodList (Unit {0})
  handle_event e = when (is_manifest_push e) (report_event e)

  -- webhookHandler over the decoded body; it answers with an HTTP status.
  unfoldable pub webhook_handler : Outcome (List Event) → Proc PodList ℕ
  webhook_handler body =
      on_error (give body) (λ _. return 400) (λ events. for_each events handle_event >> return 200)
