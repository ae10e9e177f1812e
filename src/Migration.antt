-- ===== src/Migration.antt =====
-- practice/internal/controller/migration_controller.go: the reconciler of Migration objects.
pub mod Filter
pub mod Invariants
pub mod Lock
pub mod Posts
pub mod Jobs
pub mod Pushed
pub mod Completed
use checkpoint_operator.Base.{
  ℕ, List, [], ◌∷◌, ◌++◌, Option, none, some, Bool, true, false, not, Bytes, codes, is_empty, ◌=s◌,
  has_prefix, if◌then◌else◌,
}
use checkpoint_operator.Outcome.{Error, Outcome, ok, err, panic, errorf}
use checkpoint_operator.Cluster.{
  Env, Pod, Container, MigrationSpec, Query, everywhere, in_namespace, by_selector, list_pods,
  get_deployment, get_migration,
}
use checkpoint_operator.Proc.{
  Proc, call, return, give, modify, on_error, for_each, when, ◌>>=◌, ◌>>◌,
}
use checkpoint_operator.Util.Globals.{PodsMap, fill_in_global_variables}
use checkpoint_operator.Util.Clientset.{create_client_set}
use checkpoint_operator.Util.ImageCheck.{docker_registry}
use checkpoint_operator.Kubelet.{get_kubelet_client, checkpoint_pod}
use checkpoint_operator.RegistryIp.{return_registry_ip}
use checkpoint_operator.Buildah.{buildah_pod_push_image, delete_buildah_jobs}
use checkpoint_operator.Deploy.{original_image_checker}

-- The first loop of filterPods: each pod of the name in turn replaces the list that is kept.
unfoldable pub keep_named : Bytes → List Pod → List Pod → List Pod
keep_named name kept [] = kept
keep_named name kept (p ∷ ps) = keep_named name (if p.name =s name then p ∷ [] else kept) ps

-- The inner loop of the second: the pods of the name are appended, and `found` is set.
unfoldable pub append_named : Bytes → List Pod → Bool → List Pod → List Pod × Bool
append_named name kept found [] = (kept, found)
append_named name kept found (p ∷ ps) =
    let here = p.name =s name in
    append_named name (if here then kept ++ p ∷ [] else kept) (if here then true else found) ps

abbrev pub pod_not_found : Error
pod_not_found = errorf "pod not found in your specified pods" []

found_or_error : List Pod × Bool → Outcome (List Pod)
found_or_error (kept, true) = ok kept
found_or_error (kept, false) = err pod_not_found

next_named : Outcome (List Pod) → (List Pod → Outcome (List Pod)) → Outcome (List Pod)
next_named (ok kept) more = more kept
next_named (err e) more = err e
next_named panic more = panic

-- The second loop: each name of the spec has to be found.
unfoldable pub keep_specified : List Pod → List Pod → List Bytes → Outcome (List Pod)
unfolding found_or_error next_named append_named
keep_specified items kept [] = ok kept
keep_specified items kept (name ∷ names) =
    next_named (found_or_error (append_named name kept false items))
      (λ kept'. keep_specified items kept' names)

-- The third loop.
unfoldable pub keep_prefixed : Bytes → List Pod → List Pod → List Pod
keep_prefixed prefix kept [] = kept
keep_prefixed prefix kept (p ∷ ps) =
    keep_prefixed prefix (if has_prefix p.name prefix then kept ++ p ∷ [] else kept) ps

abbrev pub running : Bytes
running = codes "Running"

-- The kubelet's checkpoint endpoint for a container.
unfoldable pub checkpoint_address : Pod → Container → Bytes
checkpoint_address pod c =
    codes "https://"
    ++ pod.host_ip
    ++ codes ":10250/checkpoint/"
    ++ pod.namespace
    ++ b'/' ∷ pod.name
    ++ b'/' ∷ c.name

-- `items[0]`, a panic where there is none
unfoldable pub first_item : List Bytes → Outcome Bytes
first_item [] = panic
first_item (x ∷ xs) = ok x

-- ctrl.Result and the error, which come together.
pub record Result : Type 0 where
  pub requeue_after : ℕ
  pub error : Option Error

-- The spec of an object that could not be fetched.
abbrev pub zero_spec : MigrationSpec
zero_spec = record {
  pod_name = [];
  deployment = [];
  namespace = [];
  destination_node = [];
  destination_namespace = [];
  specify = [];
}

module _ (env : Env) (spec : MigrationSpec) where
  -- The entry of a listed pod: its deployment is left empty.
  unfoldable pub fill_in_pod : Pod → Proc PodsMap (Unit {0})
  fill_in_pod p = modify (
      fill_in_global_variables p.name [] spec.namespace spec.destination_node
        spec.destination_namespace spec.specify)

  unfoldable pub filter_pods : Option Query → Bool → Proc PodsMap (List Pod)
  filter_pods none specified = do
    items ← call (list_pods everywhere) (λ t. env.list_pods t everywhere)
    return (keep_named spec.pod_name items items)
  filter_pods (some query) true = do
    items ← call (list_pods query) (λ t. env.list_pods t query)
    give (keep_specified items [] spec.specify)
  filter_pods (some query) false = do
    items ← call (list_pods query) (λ t. env.list_pods t query)
    for_each items fill_in_pod
    return (keep_prefixed spec.pod_name [] items)

  -- What is done with the kubelet's answer, once it is read.
  unfoldable pub push_checkpoint : Pod → List Bytes → Proc PodsMap (Unit {0})
  push_checkpoint pod items = do
    create_client_set env
    ip ← return_registry_ip env spec.destination_namespace
    original_image_checker env pod spec.destination_node
    archive ← give (first_item items)
    buildah_pod_push_image env pod.node_name docker_registry archive ip
    delete_buildah_jobs env

  -- A failure to read or decode the answer is passed over with `continue`.
  unfoldable pub checkpoint_container : Pod → Container → Proc PodsMap (Unit {0})
  checkpoint_container pod c = do
    response ← checkpoint_pod env (get_kubelet_client env) (checkpoint_address pod c)
    on_error (give (env.read_all response)) (λ _. return tt)
        (λ body. on_error (give (env.unmarshal_items body)) (λ _. return tt) (push_checkpoint pod))

  unfoldable pub checkpoint_each : List Pod → Proc PodsMap (Unit {0})
  checkpoint_each pods =
      for_each pods
        (λ pod. when (pod.phase =s running) (for_each pod.containers (checkpoint_container pod)))

  unfoldable pub checkpoint_single_pod : Option Query → Bool → Proc PodsMap (Unit {0})
  checkpoint_single_pod query specified = do
    pods ← filter_pods query specified
    checkpoint_each pods

  unfoldable pub checkpoint_deployment : Proc PodsMap (Unit {0})
  checkpoint_deployment = do
    labels ←
        call (get_deployment spec.namespace spec.deployment)
          (λ t. env.get_deployment t spec.namespace spec.deployment)
    selector ← give (env.label_selector labels)
    checkpoint_single_pod (some (by_selector spec.namespace selector)) false

  -- An error is returned with a requeue after 30 seconds.
  report : Proc PodsMap (Unit {0}) → Proc PodsMap Result
  report m =
      on_error m (λ e. return (record { requeue_after = 30; error = some e }))
        (λ _. return (record { requeue_after = 0; error = none }))

  -- An error is not looked at.
  discard : Proc PodsMap (Unit {0}) → Proc PodsMap Result
  discard m =
      on_error m (λ _. return (record { requeue_after = 0; error = none }))
        (λ _. return (record { requeue_after = 0; error = none }))

  -- Reconcile, from where the object is fetched.
  unfoldable pub reconcile_spec : Proc PodsMap Result
  unfolding report discard
  reconcile_spec =
      if not (is_empty spec.specify)
      then report (checkpoint_single_pod (some (in_namespace spec.namespace)) true)
      else if not (is_empty spec.deployment)
      then discard checkpoint_deployment
      else discard (checkpoint_single_pod none false)

  unfoldable pub fill_in_spec : Proc PodsMap (Unit {0})
  fill_in_spec = modify (
      fill_in_global_variables spec.pod_name spec.deployment spec.namespace spec.destination_node
        spec.destination_namespace spec.specify)

-- The global variables are filled in before the error of Get is looked at.
unfoldable pub reconcile : Env → Bytes → Bytes → Proc PodsMap Result
reconcile env namespace name =
    on_error (call (get_migration namespace name) (λ t. env.get_migration t namespace name))
      (λ e. fill_in_spec env zero_spec >> return (record { requeue_after = 30; error = some e }))
      (λ spec. fill_in_spec env spec >> reconcile_spec env spec)
