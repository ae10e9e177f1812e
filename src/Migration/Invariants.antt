-- ===== src/Migration/Invariants.antt =====
-- The invariants of the reconciler: what its calls keep, its checkpoint requests for running pods,
-- and its entries in ProcessPodsMap, is kept by all of it.
use checkpoint_operator.Base.{
  List, ◌∷◌, Option, none, some, Bool, true, false, Bytes, ◌≡◌, refl, ◌=s◌, arith, All, All-map,
  All-of_members,
}
use checkpoint_operator.Outcome.{Outcome}
use checkpoint_operator.Cluster.{
  Env, Call, Pod, Container, MigrationSpec, Query, Trace, Job, post, write,
}
use checkpoint_operator.Proc.{call}
use checkpoint_operator.Proc.Keeps.{
  Keeps, Keeps-call, Keeps-modify, Keeps-if, Keeps-when, Keeps-for_each_member, Keeps-return,
  keeps_rules,
}
use checkpoint_operator.Util.Globals.{PodsMap, fill_in_global_variables}
use checkpoint_operator.Util.Clientset.{create_client_set}
use checkpoint_operator.Util.ImageCheck.{check_image_id_exist_on_node, check_job_status}
use checkpoint_operator.Util.ImageCheck.Invariants.{check_job_status-Keeps}
use checkpoint_operator.Kubelet.{checkpoint_pod, full_url}
use checkpoint_operator.RegistryIp.{return_registry_ip}
use checkpoint_operator.Buildah.{buildah_pod_push_image, delete_if_done, delete_buildah_jobs}
use checkpoint_operator.Deploy.{original_image_checker}
use checkpoint_operator.Migration.{
  filter_pods, fill_in_pod, push_checkpoint, checkpoint_container, checkpoint_each,
  checkpoint_single_pod, checkpoint_deployment, checkpoint_address, running, reconcile_spec,
  fill_in_spec, reconcile,
}

-- A request to a kubelet, or a message to the broker.
abbrev pub is_sent : Call → Bool
is_sent (post url) = true
is_sent (write topic m) = true
is_sent _ = false

-- A message to the broker.
abbrev pub is_message : Call → Bool
is_message (write topic m) = true
is_message _ = false

not_message : (c : Call) → is_sent c ≡ false → is_message c ≡ false
not_message (post url) e = refl
not_message (write topic m) e = e
not_message c e = refl

module _ {P : PodsMap → Trace → Type 0} (env : Env)
    (calls : (c : Call) (s : PodsMap) (t : Trace) → is_sent c ≡ false → P s t → P s (c ∷ t)) where
  call-P : {A : Type 0} (c : Call) (f : Trace → Outcome A) → is_sent c ≡ false → Keeps P (call c f)
  call-P c f e = Keeps-call c f (λ s t h. calls c s t e h)

  client-P : Keeps P (create_client_set env)
  unfolding create_client_set
  client-P = search (keeps_rules, call-P) depth 8

  image_check-P :
      (ids : List Bytes) (node : Bytes) → Keeps P (check_image_id_exist_on_node env ids node)
  unfolding check_image_id_exist_on_node
  image_check-P ids node = search (keeps_rules, call-P, client-P) depth 8

  job_status-P : (name : Bytes) → Keeps P (check_job_status env name)
  job_status-P name = check_job_status-Keeps env (λ c s t e h. calls c s t (ground arith) h) name

  checker-P : (pod : Pod) (node : Bytes) → Keeps P (original_image_checker env pod node)
  unfolding original_image_checker
  checker-P pod node = search (keeps_rules, image_check-P, job_status-P) depth 8

  registry-P : (node : Bytes) → Keeps P (return_registry_ip env node)
  unfolding return_registry_ip
  registry-P node = search (keeps_rules, call-P) depth 8

  push-P : (n o c i : Bytes) → Keeps P (buildah_pod_push_image env n o c i)
  unfolding buildah_pod_push_image
  push-P n o c i = search (keeps_rules, call-P, client-P) depth 8

  delete_if_done-P : (job : Job) → Keeps P (delete_if_done env job)
  unfolding delete_if_done
  delete_if_done-P job = search (keeps_rules, Keeps-when, call-P) depth 8

  pub delete_jobs-P : Keeps P (delete_buildah_jobs env)
  unfolding delete_buildah_jobs
  delete_jobs-P = search (keeps_rules, call-P, delete_if_done-P) depth 8

  push_checkpoint-P :
      (spec : MigrationSpec) (pod : Pod) (items : List Bytes)
      → Keeps P (push_checkpoint env spec pod items)
  unfolding push_checkpoint
  push_checkpoint-P spec pod items =
      search (keeps_rules, client-P, registry-P, checker-P, push-P, delete_jobs-P) depth 12

-- The reconciler also sends requests for the containers of running pods.
module _ {P : PodsMap → Trace → Type 0} {Target : Pod → Container → Type 0} (env : Env)
    (calls : (c : Call) (s : PodsMap) (t : Trace) → is_sent c ≡ false → P s t → P s (c ∷ t))
    (posts : (pod : Pod) (c : Container) (s : PodsMap) (t : Trace)
      → Target pod c
      → P s t
      → P s (post (full_url (checkpoint_address pod c)) ∷ t)) where
  checkpoint_pod-P :
      (client : Option (Unit {0})) (pod : Pod) (c : Container)
      → Target pod c
      → Keeps P (checkpoint_pod env client (checkpoint_address pod c))
  unfolding checkpoint_pod
  checkpoint_pod-P none pod c e = search keeps_rules depth 8
  checkpoint_pod-P (some _) pod c e =
      search (keeps_rules, Keeps-call, λ (s : PodsMap) (t : Trace). posts pod c s t e) depth 8

  container-P :
      (spec : MigrationSpec) (pod : Pod) (c : Container)
      → Target pod c
      → Keeps P (checkpoint_container env spec pod c)
  unfolding checkpoint_container
  container-P spec pod c e =
      search (keeps_rules, checkpoint_pod-P _ pod c e, push_checkpoint-P env calls) depth 8

  pub checkpoint_each-Keeps :
      (spec : MigrationSpec) (pods : List Pod)
      → All (λ pod. pod.phase =s running ≡ true → All (Target pod) pod.containers) pods
      → Keeps P (checkpoint_each env spec pods)
  unfolding checkpoint_each
  checkpoint_each-Keeps spec pods targets = Keeps-for_each_member pods _ (
      All-map
        (λ pod h.
          Keeps-if _ _ _
            (λ e.
              Keeps-for_each_member pod.containers _
                (All-map (container-P spec pod) pod.containers (h e)))
            (λ _. Keeps-return tt))
        pods targets)

-- It fills in entries, too, all with the fields of the spec.
module _ {P : PodsMap → Trace → Type 0} (env : Env)
    (calls : (c : Call) (s : PodsMap) (t : Trace)
      → is_message c ≡ false
      → P s t
      → P s (c ∷ t)) where
  abbrev Fills : MigrationSpec → Type 0
  Fills spec =
      (k d : Bytes) (s : PodsMap) (t : Trace)
      → P s t
      → P
          (fill_in_global_variables k d spec.namespace spec.destination_node
            spec.destination_namespace spec.specify s)
          t

  each-P : (spec : MigrationSpec) (pods : List Pod) → Keeps P (checkpoint_each env spec pods)
  each-P spec pods =
      checkpoint_each-Keeps {Target = λ pod c. Unit {0}} env
        (λ c s t e h. calls c s t (not_message c e) h) (λ pod c s t _ h. calls _ s t refl h) spec
        pods (All-of_members pods (λ pod _ _. All-of_members pod.containers (λ c _. tt)))

  module _ (spec : MigrationSpec) (fills : Fills spec) where
    fill_in_pod-P : (p : Pod) → Keeps P (fill_in_pod env spec p)
    unfolding fill_in_pod
    fill_in_pod-P p = Keeps-modify _ (λ s t h. fills p.name _ s t h)

    filter-P :
        (query : Option Query) (specified : Bool) → Keeps P (filter_pods env spec query specified)
    unfolding filter_pods
    filter-P none specified =
        search (keeps_rules, call-P env (λ c s t e h. calls c s t (not_message c e) h))
    filter-P (some query) true =
        search (keeps_rules, call-P env (λ c s t e h. calls c s t (not_message c e) h))
    filter-P (some query) false =
        search
          (keeps_rules, call-P env (λ c s t e h. calls c s t (not_message c e) h), fill_in_pod-P)
          depth 8

    single-P :
        (query : Option Query) (specified : Bool)
        → Keeps P (checkpoint_single_pod env spec query specified)
    unfolding checkpoint_single_pod
    single-P query specified = search (keeps_rules, filter-P, each-P)

    deployment-P : Keeps P (checkpoint_deployment env spec)
    unfolding checkpoint_deployment
    deployment-P =
        search (keeps_rules, call-P env (λ c s t e h. calls c s t (not_message c e) h), single-P)
          depth 8

    pub reconcile_spec-Keeps : Keeps P (reconcile_spec env spec)
    unfolding reconcile_spec
    reconcile_spec-Keeps = search (keeps_rules, deployment-P, single-P) depth 8

    fill_in_spec-P : Keeps P (fill_in_spec env spec)
    unfolding fill_in_spec
    fill_in_spec-P = Keeps-modify _ (λ s t h. fills spec.pod_name _ s t h)

  module _ (fills : (spec : MigrationSpec) → Fills spec) where
    fetched-P : (spec : MigrationSpec) → Keeps P (reconcile_spec env spec)
    fetched-P spec = reconcile_spec-Keeps spec (fills spec)

    filled-P : (spec : MigrationSpec) → Keeps P (fill_in_spec env spec)
    filled-P spec = fill_in_spec-P spec (fills spec)

    pub reconcile-Keeps : (namespace name : Bytes) → Keeps P (reconcile env namespace name)
    unfolding reconcile
    reconcile-Keeps namespace name =
        search
          (
            keeps_rules,
            call-P env (λ c s t e h. calls c s t (not_message c e) h),
            filled-P,
            fetched-P,
          )
          depth 8
