-- ===== src/ServerSideApply.antt =====
-- practice/handlers/cr-decoder.go, call by call: DoSSA up to the request that it sends. Monitor has
-- it as two answers of the outside, what comes before the request and the request.
pub mod Overwritten
pub mod Yaml
use checkpoint_operator.Base.{
  List, [], ◌∷◌, ◌++◌, Option, none, some, Bool, true, Bytes, codes, ◌=s◌, if◌then◌else◌,
}
use checkpoint_operator.Outcome.{Outcome, ok}
use checkpoint_operator.Cluster.{Pod, MigrationSpec}
use checkpoint_operator.Proc.{Proc, give, on_error, return, when, ◌>>=◌, ◌>>◌}
use checkpoint_operator.Monitor.{migration_for, check_is_valid_namespace}

-- unstructured.Unstructured: what is read of it, and its fields with the JSON text of each.
pub record Object : Type 0 where
  pub group : Bytes
  pub version : Bytes
  pub kind : Bytes
  pub name : Bytes
  pub namespace : Bytes
  pub labels : List (Bytes × Bytes)
  pub spec : List (Bytes × Bytes)

-- meta.RESTMapping
pub record Mapping : Type 0 where
  pub resource : Bytes
  pub scope_name : Bytes

-- Which object a request is for.
pub record Key : Type 0 where
  pub resource : Bytes
  pub namespace : Option Bytes
  pub name : Bytes

-- A request of type ApplyPatchType.
pub record Patch : Type 0 where
  pub key : Key
  pub body : Bytes
  pub field_manager : Bytes
  pub force : Bool

-- The answers of the client libraries and of the API server, after the requests before, the newest
-- first.
pub record Host : Type 0 where
  pub new_discovery_client : List Patch → Outcome (Unit {0})
  pub new_dynamic_client : List Patch → Outcome (Unit {0})
  -- time.Now().Format("20060102-150405")
  pub now : List Patch → Bytes
  pub decode : Bytes → Outcome Object
  -- by group, kind and version
  pub rest_mapping : List Patch → Bytes → Bytes → Bytes → Outcome Mapping
  pub marshal : Object → Outcome Bytes
  pub patch : List Patch → Patch → Outcome (Unit {0})

abbrev lines : List Bytes → Bytes
lines [] = []
lines (s ∷ more) = s ++ b'\n' ∷ lines more

-- The YAML text, which starts with an empty line.
unfoldable pub migration_text : Bytes → MigrationSpec → Bytes
migration_text stamp spec = lines (
    []
    ∷ codes "apiVersion: api.my.domain/v1alpha1"
    ∷ codes "kind: Migration"
    ∷ codes "metadata:"
    ∷ codes "  name: migration-sample"
    ∷ codes "  labels:"
    ∷ codes "    example-webhook-enabled: \"true\""
    ∷ (codes "    force-update: \"" ++ stamp ++ codes "\"")
    ∷ codes "  namespace: practice-system"
    ∷ codes "spec:"
    ∷ (codes "  podname: " ++ spec.pod_name)
    ∷ codes "  deployment: \"\""
    ∷ (codes "  namespace: " ++ spec.namespace)
    ∷ (codes "  destinationNode: " ++ spec.destination_node)
    ∷ (codes "  destinationNamespace: " ++ spec.destination_namespace)
    ∷ codes "  specify: []"
    ∷ [])

-- A namespaced resource is looked for in the object's namespace.
unfoldable pub key_of : Mapping → Object → Key
key_of mapping obj = record {
  resource = mapping.resource;
  namespace = if mapping.scope_name =s codes "namespace" then some obj.namespace else none;
  name = obj.name;
}

unfoldable pub patch_for : Mapping → Object → Bytes → Patch
unfolding key_of
patch_for mapping obj body = record {
  key = key_of mapping obj;
  body = body;
  field_manager = codes "node-controller";
  force = true;
}

module _ (host : Host) where
  ask : {A : Type 0} → (List Patch → Outcome A) → Proc (List Patch) A
  ask reply sent t = record { outcome = reply sent; globals = sent; trace = t }

  send_patch : Patch → Proc (List Patch) (Unit {0})
  send_patch p sent t = record { outcome = host.patch sent p; globals = p ∷ sent; trace = t }

  -- Steps 1 to 6 of DoSSA.
  unfoldable pub prepare_patch : MigrationSpec → Proc (List Patch) Patch
  unfolding ask patch_for
  prepare_patch spec = do
    ask host.new_discovery_client
    ask host.new_dynamic_client
    stamp ← ask (λ sent. ok (host.now sent))
    obj ← give (host.decode (migration_text stamp spec))
    mapping ← ask (λ sent. host.rest_mapping sent obj.group obj.kind obj.version)
    body ← give (host.marshal obj)
    return (patch_for mapping obj body)

  unfoldable pub do_ssa : Pod → Bytes → Proc (List Patch) (Unit {0})
  unfolding prepare_patch send_patch
  do_ssa pod node = do p ← prepare_patch (migration_for pod node); send_patch p

  -- The body of the monitor's loops: an error is only logged.
  unfoldable pub move_pod : Bytes → Pod → Proc (List Patch) (Unit {0})
  move_pod node pod =
      when (check_is_valid_namespace pod.namespace)
        (on_error (do_ssa pod node) (λ _. return tt) (λ _. return tt))
