-- ===== src/Events/Reported.antt =====
-- What the handler sends for the events of one request.
use checkpoint_operator.Base.{
  List, [], ◌∷◌, some, Bool, true, false, not, ◌&&◌, ◌||◌, is_empty, Bytes, codes, select, ◌=s◌,
  ◌≡◌, ◌≢◌, refl, arith, if◌then◌else◌, ap, ◌∙◌,
}
use checkpoint_operator.Base.Text.UpTo.{up_to, split-up_to}
use checkpoint_operator.Util.ImageName.{first_part}
use checkpoint_operator.Outcome.{ok, panic}
use checkpoint_operator.Cluster.{Env, Pod, Message, Trace, write}
use checkpoint_operator.Proc.{◌>>=◌, on_error, for_each, continue}
use checkpoint_operator.Proc.Inversion.{bind_from}
use checkpoint_operator.Kafka.{my_topic, produce_message_as_is, send}
use checkpoint_operator.Events.{
  Event, find_node, get_node_name_by_host_ip, is_manifest_push, host_ip, report_event, handle_event,
  webhook_handler,
}

abbrev pub has_ip : Bytes → Pod → Bool
has_ip ip pod = pod.pod_ip =s ip

abbrev pub first_node : List Pod → Bytes
first_node [] = []
first_node (pod ∷ pods) = pod.node_name

-- The node of the first pod whose address is the event's host, less the port.
abbrev pub node_of : List Pod → Event → Bytes
node_of pods e = first_node (select (has_ip (up_to b':' e.host)) pods)

-- The push of a manifest, in either of two formats.
abbrev pub pushes_manifest : Event → Bool
pushes_manifest e =
    e.action =s codes "push"
    && (e.media_type =s codes "application/vnd.oci.image.manifest.v1+json"
        || e.media_type =s codes "application/vnd.docker.distribution.manifest.v2+json")

-- The message for an event: the node of the registry pod that took the push, and the repository.
abbrev pub report : List Pod → Event → Message
report pods e = record { key = node_of pods e; value = e.repository }

-- An event is reported if it is the push of a manifest to a registry pod that is known.
abbrev pub is_reported : List Pod → Event → Bool
is_reported pods e = pushes_manifest e && not (is_empty (node_of pods e))

abbrev pub reports : List Pod → List Event → List Message
reports pods [] = []
reports pods (e ∷ es) =
    if is_reported pods e then report pods e ∷ reports pods es else reports pods es

-- The trace once some messages are sent, the newest first.
abbrev pub sent : List Message → Trace → Trace
sent [] t = t
sent (m ∷ ms) t = sent ms (write my_topic m ∷ t)

sent-if :
    (b : Bool) (m : Message) (ms : List Message) (t : Trace)
    → sent ms (if b then write my_topic m ∷ t else t) ≡ sent (if b then m ∷ ms else ms) t
sent-if true m ms t = refl
sent-if false m ms t = refl

host_ip-eq : (host : Bytes) → host_ip host ≡ up_to b':' host
unfolding host_ip
host_ip-eq host = ap first_part (split-up_to host b':').1

find_node-if :
    (b : Bool) (pod : Pod) (node : Bytes) (pods : List Pod)
    → node ≡ first_node pods
    → (if b then pod.node_name else node) ≡ first_node (if b then pod ∷ pods else pods)
find_node-if true pod node pods e = refl
find_node-if false pod node pods e = e

find_node-eq :
    (ip : Bytes) (pods : List Pod) → find_node ip pods ≡ first_node (select (has_ip ip) pods)
unfolding find_node
find_node-eq ip [] = refl
find_node-eq ip (p ∷ ps) = find_node-if (p.pod_ip =s ip) p _ _ (find_node-eq ip ps)

asked_node-eq : (pods : List Pod) (e : Event) → find_node (host_ip e.host) pods ≡ node_of pods e
asked_node-eq pods e = rw (host_ip-eq e.host) (find_node-eq (up_to b':' e.host) pods)

module _ (env : Env) (pods : List Pod)
    (no_panic : (t : Trace) (m : Message) → env.write t my_topic m ≢ panic) where
  handle_event-eq :
      (e : Event) (t : Trace)
      → let r = handle_event env e (some pods) t in
        (r.outcome ≡ ok tt)
        × (r.globals ≡ some pods)
        × (r.trace ≡ (if is_reported pods e then write my_topic (report pods e) ∷ t else t))
  unfolding handle_event is_manifest_push report_event get_node_name_by_host_ip
      produce_message_as_is send ◌>>=◌ on_error
  handle_event-eq e t = ground (
    arith,
    asked_node-eq pods e,
    no_panic (write my_topic (report pods e) ∷ t) (report pods e),
    no_panic t (report pods e),
  )

  handle_events-eq :
      (es : List Event) (t : Trace)
      → let r = for_each es (handle_event env) (some pods) t in
        (r.outcome ≡ ok tt) × (r.trace ≡ sent (reports pods es) t)
  unfolding for_each
  handle_events-eq [] t = (refl, refl)
  handle_events-eq (e ∷ es) t =
      let r = handle_event env e (some pods) t in
      let (done, same, trace) = handle_event-eq e t in
      let run =
        bind_from (handle_event env e) (λ _. for_each es (handle_event env)) (some pods) t tt
          done in
      let rest = handle_events-eq es r.trace in
      rw (run, same)
        (
          rest.0,
          rest.1
              ∙ ap (sent (reports pods es)) trace
              ∙ sent-if (is_reported pods e) _ (reports pods es) t,
        )

-- Where the registry pods are known and the broker's client does not panic, a request is answered
-- with 200, and one message is sent for each push of a manifest to a known registry pod, in the
-- order of the events, with that pod's node and the image's repository; nothing else is called. The
-- registry pod is the first that has the address of the event's host, less the port.
pub webhook_handler-sent :
    (env : Env) (pods : List Pod) (es : List Event) (t : Trace)
    → ((t : Trace) (m : Message) → env.write t my_topic m ≢ panic)
    → ((webhook_handler env (ok es) (some pods) t).outcome ≡ ok 200)
      × ((webhook_handler env (ok es) (some pods) t).trace ≡ sent (reports pods es) t)
unfolding webhook_handler ◌>>=◌ on_error
webhook_handler-sent env pods es t no_panic =
    let (done, trace) = handle_events-eq env pods no_panic es t in
    (rw (done, continue) refl, rw (done, continue) trace)
