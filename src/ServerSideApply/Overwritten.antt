-- ===== src/ServerSideApply/Overwritten.antt =====
-- Each Migration of the monitor is applied under one name, over the one before.
use checkpoint_operator.Base.{
  List, [], ◌∷◌, ◌++◌, Option, none, some, Bool, true, false, Bytes, codes, ◌=s◌, if◌then◌else◌,
  ◌≡◌, ◌≢◌, refl, ap, ◌∙◌, inl, inr, Bool-cases, All,
}
use checkpoint_operator.Outcome.{ok}
use checkpoint_operator.Cluster.{Pod, Trace}
use checkpoint_operator.Proc.{for_each, on_error, ◌>>=◌, give, return}
use checkpoint_operator.Proc.Inversion.{bind_from}
use checkpoint_operator.Monitor.{migration_for, check_is_valid_namespace}
use checkpoint_operator.ServerSideApply.Yaml.{
  Document, IsPlain, document, object, quoted, unlines, is_plain, is_stamp, migration_text-document,
}
use checkpoint_operator.ServerSideApply.{
  Object, Key, Patch, Host, migration_text, key_of, patch_for, ask, send_patch, prepare_patch,
  do_ssa, move_pod,
}

abbrev pub sample : Key
sample = record {
  resource = codes "migrations";
  namespace = some (codes "practice-system");
  name = codes "migration-sample";
}

abbrev pub document_for : Bytes → Bytes → Pod → Document
document_for stamp node pod = record {
  name = codes "migration-sample";
  namespace = codes "practice-system";
  stamp = stamp;
  pod = pod.name;
  source = pod.namespace;
  node = node;
  target = pod.namespace;
}

-- The value of a field among some.
abbrev pub value_of : Bytes → List (Bytes × Bytes) → Option Bytes
value_of f [] = none
value_of f ((g, v) ∷ fields) = if g =s f then some v else value_of f fields

-- The host does as it is documented to. The decoder reads a document with any names that YAML takes
-- for texts as its object. `json` is the text of an object, and `read sent key field` the value that
-- the API server holds of a field of an object's spec after the requests `sent`: a request with force
-- is accepted, and each field of its object then has the object's value. Whose the other fields are,
-- and what becomes of them, is left open.
pub record Serves (host : Host) (json : Object → Bytes)
    (read : List Patch → Key → Bytes → Option Bytes) : Type 0 where
  pub discovers : (sent : List Patch) → host.new_discovery_client sent ≡ ok tt
  pub connects : (sent : List Patch) → host.new_dynamic_client sent ≡ ok tt
  pub tells_time : (sent : List Patch) → is_stamp (host.now sent) ≡ true
  pub decodes : (d : Document) → IsPlain d → host.decode (unlines (document d)) ≡ ok (object d)
  pub maps :
      (sent : List Patch)
      → host.rest_mapping sent (codes "api.my.domain") (codes "Migration") (codes "v1alpha1")
        ≡ ok (record { resource = codes "migrations"; scope_name = codes "namespace" })
  pub marshals : (o : Object) → host.marshal o ≡ ok (json o)
  pub accepts : (sent : List Patch) (p : Patch) → p.force ≡ true → host.patch sent p ≡ ok tt
  pub merges :
      (sent : List Patch) (p : Patch) (o : Object) (f v : Bytes)
      → p.force ≡ true
      → p.body ≡ json o
      → p.key.name ≡ o.name
      → value_of f o.spec ≡ some v
      → read (p ∷ sent) p.key f ≡ some v
  pub keeps :
      (sent : List Patch) (p : Patch) (k : Key) (f : Bytes)
      → k ≢ p.key
      → read (p ∷ sent) k f ≡ read sent k f

-- YAML takes the pod's name and its namespace for texts.
abbrev pub IsPlainPod : Pod → Type 0
IsPlainPod pod = (is_plain pod.name ≡ true) × (is_plain pod.namespace ≡ true)

abbrev pub is_movable : Pod → Bool
is_movable pod = check_is_valid_namespace pod.namespace

module _ (host : Host) (json : Object → Bytes) (read : List Patch → Key → Bytes → Option Bytes)
    (h : Serves host json read) (node : Bytes) (plain_node : is_plain node ≡ true) where
  abbrev request : Pod → List Patch → Patch
  request pod sent = record {
    key = sample;
    body = json (object (document_for (host.now sent) node pod));
    field_manager = codes "node-controller";
    force = true;
  }

  decoded :
      (pod : Pod) (sent : List Patch)
      → IsPlainPod pod
      → host.decode (migration_text (host.now sent) (migration_for pod node))
        ≡ ok (object (document_for (host.now sent) node pod))
  unfolding migration_for is_plain ◌=s◌
  decoded pod sent (name, namespace) =
      rw (migration_text-document (host.now sent) (migration_for pod node)) (
        h.decodes (document_for (host.now sent) node pod) (record {
          name = refl;
          namespace = refl;
          stamp = h.tells_time sent;
          pod = name;
          source = namespace;
          node = plain_node;
          target = namespace;
        }))

  move_pod-eq :
      (pod : Pod) (sent : List Patch) (t : Trace)
      → IsPlainPod pod
      → is_movable pod ≡ true
      → let r = move_pod host node pod sent t in
        (r.outcome ≡ ok tt) × (r.globals ≡ request pod sent ∷ sent)
  unfolding move_pod do_ssa prepare_patch send_patch ask patch_for key_of ◌>>=◌ on_error give ◌=s◌
  move_pod-eq pod sent t plain movable =
      rw
        (
          movable,
          h.discovers sent,
          h.connects sent,
          decoded pod sent plain,
          h.maps sent,
          h.marshals (object (document_for (host.now sent) node pod)),
          h.accepts sent (request pod sent) refl,
        )
        (refl, refl)

  move_pod_stays :
      (pod : Pod) (sent : List Patch) (t : Trace) (k : Key) (f : Bytes)
      → is_movable pod ≡ false
      → let r = move_pod host node pod sent t in
        (r.outcome ≡ ok tt) × (read r.globals k f ≡ read sent k f)
  unfolding move_pod return
  move_pod_stays pod sent t k f stays = rw stays (refl, refl)

  -- Whatever its namespace, a pod touches no other object.
  move_pod_others :
      (pod : Pod) (sent : List Patch) (t : Trace) (k : Key) (f : Bytes)
      → IsPlainPod pod
      → k ≢ sample
      → let r = move_pod host node pod sent t in
        (r.outcome ≡ ok tt) × (read r.globals k f ≡ read sent k f)
  move_pod_others pod sent t k f plain ne = elim (Bool-cases (is_movable pod)) [
    | inl moves ↦
        let (done, sent') = move_pod-eq pod sent t plain moves in
        (done, ap (λ g. read g k f) sent' ∙ h.keeps sent (request pod sent) k f ne)
    | inr stays ↦ move_pod_stays pod sent t k f stays
  ]

  -- The object with the one name asks for the pod to be moved to the node, within its namespace.
  abbrev pub AsksFor : Pod → List Patch → Type 0
  AsksFor pod sent =
      (read sent sample (codes "podname") ≡ some (quoted pod.name))
      × (read sent sample (codes "namespace") ≡ some (quoted pod.namespace))
      × (read sent sample (codes "destinationNode") ≡ some (quoted node))
      × (read sent sample (codes "destinationNamespace") ≡ some (quoted pod.namespace))

  request-AsksFor : (pod : Pod) (sent : List Patch) → AsksFor pod (request pod sent ∷ sent)
  unfolding ◌=s◌
  request-AsksFor pod sent =
      let o = object (document_for (host.now sent) node pod) in
      let p = request pod sent in
      (
        h.merges sent p o (codes "podname") (quoted pod.name) refl refl refl refl,
        h.merges sent p o (codes "namespace") (quoted pod.namespace) refl refl refl refl,
        h.merges sent p o (codes "destinationNode") (quoted node) refl refl refl refl,
        h.merges sent p o (codes "destinationNamespace") (quoted pod.namespace) refl refl refl refl,
      )

  -- After the loop over some pods, the last of which may be moved, the API server holds one Migration
  -- for all of them, and it asks for that last pod to be moved to the node, whatever was there before;
  -- under other names is what was there before. Assumed is that the host does as documented, and that
  -- the names of the pods, their namespaces and the node are such that YAML takes them for texts.
  pub last_pod_remains :
      (pods : List Pod) (pod : Pod) (sent : List Patch) (t : Trace) (k : Key) (f : Bytes)
      → All IsPlainPod pods
      → IsPlainPod pod
      → is_movable pod ≡ true
      → k ≢ sample
      → let r = for_each (pods ++ pod ∷ []) (move_pod host node) sent t in
        (r.outcome ≡ ok tt) × (read r.globals k f ≡ read sent k f) × AsksFor pod r.globals
  unfolding for_each
  last_pod_remains [] pod sent t k f all_plain plain movable ne =
      let (done, sent') = move_pod-eq pod sent t plain movable in
      let run =
        bind_from (move_pod host node pod) (λ _. for_each [] (move_pod host node)) sent t tt done in
      rw (run, sent') (refl, h.keeps sent (request pod sent) k f ne, request-AsksFor pod sent)
  last_pod_remains (p ∷ pods) pod sent t k f all_plain plain movable ne =
      let r = move_pod host node p sent t in
      let (done, same) = move_pod_others p sent t k f all_plain.0 ne in
      let run =
        bind_from (move_pod host node p) (λ _. for_each (pods ++ pod ∷ []) (move_pod host node))
          sent t tt done in
      let (d, others, last) =
        last_pod_remains pods pod r.globals r.trace k f all_plain.1 plain movable ne in
      rw run (d, others ∙ same, last)
