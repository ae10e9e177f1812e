-- ===== src/Pipeline/Views/Reconciled.antt =====
-- The Migration reconciler cannot tell two tables with the same entries apart.
use checkpoint_operator.Base.{ℕ, zero, suc, List, Option, none, some, true, false, Bool, Bytes}
use checkpoint_operator.Outcome.{Outcome, ok, err, panic}
use checkpoint_operator.Cluster.{Env, Container, Job, MigrationSpec, Pod, Query}
use checkpoint_operator.Proc.{Proc}
use checkpoint_operator.Proc.Respects.{
  Respects-bind, Respects-modify, Respects-when, respects_rules,
}
use checkpoint_operator.Util.Globals.{PodsMap, fill_in_global_variables}
use checkpoint_operator.Util.ImageCheck.{
  check_image_id_exist_on_node, after_get, exceeded, get_status, poll_job, check_job_status,
}
use checkpoint_operator.Kubelet.{checkpoint_pod}
use checkpoint_operator.RegistryIp.{return_registry_ip}
use checkpoint_operator.Buildah.{buildah_pod_push_image, delete_if_done, delete_buildah_jobs}
use checkpoint_operator.Deploy.{original_image_checker}
use checkpoint_operator.Migration.{
  filter_pods, fill_in_pod, push_checkpoint, checkpoint_container, checkpoint_each,
  checkpoint_single_pod, checkpoint_deployment, reconcile_spec, fill_in_spec, reconcile,
}
use checkpoint_operator.Pipeline.Views.{SameView, insert-SameView, Blind, client-Respects}

fill_in-SameView :
    (k d n o p : Bytes) (q : List Bytes) (s s' : PodsMap)
    → SameView s s'
    → SameView (fill_in_global_variables k d n o p q s) (fill_in_global_variables k d n o p q s')
unfolding fill_in_global_variables
fill_in-SameView k d n o p q s s' h = insert-SameView k _ s s' h

module _ (env : Env) where
  image_check-Respects :
      (ids : List Bytes) (node : Bytes) → Blind env (check_image_id_exist_on_node env ids node)
  unfolding check_image_id_exist_on_node
  image_check-Respects ids node = search (respects_rules, client-Respects) depth 8

  after_get-Respects :
      (name : Bytes) (more : Proc PodsMap (Unit {0})) (r : Outcome Job)
      → Blind env more
      → Blind env (after_get env name more r)
  unfolding after_get
  after_get-Respects name more (ok job) k = search respects_rules
  after_get-Respects name more (err e) k = search respects_rules
  after_get-Respects name more panic k = search respects_rules

  status-Respects : (name : Bytes) → Blind env (get_status env name)
  unfolding get_status
  status-Respects name = search respects_rules depth 8

  exceeded-Respects : Blind env (exceeded env)
  unfolding exceeded
  exceeded-Respects = search respects_rules

  poll-Respects : (left : ℕ) (name : Bytes) → Blind env (poll_job env left name)
  unfolding poll_job
  poll-Respects zero name =
      search (respects_rules, status-Respects, after_get-Respects, exceeded-Respects) depth 8
  poll-Respects (suc left) name =
      Respects-bind _ _ (status-Respects name)
        (λ r. after_get-Respects name _ r (poll-Respects left name))

  job_status-Respects : (name : Bytes) → Blind env (check_job_status env name)
  unfolding check_job_status
  job_status-Respects name = search (respects_rules, client-Respects, poll-Respects) depth 8

  checker-Respects : (pod : Pod) (node : Bytes) → Blind env (original_image_checker env pod node)
  unfolding original_image_checker
  checker-Respects pod node =
      search (respects_rules, image_check-Respects, job_status-Respects) depth 8

  registry-Respects : (node : Bytes) → Blind env (return_registry_ip env node)
  unfolding return_registry_ip
  registry-Respects node = search respects_rules depth 8

  push-Respects : (n o c i : Bytes) → Blind env (buildah_pod_push_image env n o c i)
  unfolding buildah_pod_push_image
  push-Respects n o c i = search (respects_rules, client-Respects) depth 8

  delete_if_done-Respects : (job : Job) → Blind env (delete_if_done env job)
  unfolding delete_if_done
  delete_if_done-Respects job = search (respects_rules, Respects-when) depth 8

  delete_jobs-Respects : Blind env (delete_buildah_jobs env)
  unfolding delete_buildah_jobs
  delete_jobs-Respects = search (respects_rules, delete_if_done-Respects) depth 8

  kubelet-Respects :
      (client : Option (Unit {0})) (address : Bytes) → Blind env (checkpoint_pod env client address)
  unfolding checkpoint_pod
  kubelet-Respects none address = search respects_rules depth 8
  kubelet-Respects (some _) address = search respects_rules depth 8

  module _ (spec : MigrationSpec) where
    push_checkpoint-Respects :
        (pod : Pod) (items : List Bytes) → Blind env (push_checkpoint env spec pod items)
    unfolding push_checkpoint
    push_checkpoint-Respects pod items =
        search
          (
            respects_rules, client-Respects, registry-Respects, checker-Respects, push-Respects,
            delete_jobs-Respects,
          )
          depth 12

    container-Respects :
        (pod : Pod) (c : Container) → Blind env (checkpoint_container env spec pod c)
    unfolding checkpoint_container
    container-Respects pod c =
        search (respects_rules, kubelet-Respects, push_checkpoint-Respects) depth 8

    each-Respects : (pods : List Pod) → Blind env (checkpoint_each env spec pods)
    unfolding checkpoint_each
    each-Respects pods = search (respects_rules, Respects-when, container-Respects) depth 8

    fill_in_pod-Respects : (p : Pod) → Blind env (fill_in_pod env spec p)
    unfolding fill_in_pod
    fill_in_pod-Respects p = Respects-modify _ (fill_in-SameView p.name _ _ _ _ _)

    filter-Respects :
        (query : Option Query) (specified : Bool) → Blind env (filter_pods env spec query specified)
    unfolding filter_pods
    filter-Respects none specified = search respects_rules
    filter-Respects (some query) true = search respects_rules
    filter-Respects (some query) false = search (respects_rules, fill_in_pod-Respects) depth 8

    single-Respects :
        (query : Option Query) (specified : Bool)
        → Blind env (checkpoint_single_pod env spec query specified)
    unfolding checkpoint_single_pod
    single-Respects query specified = search (respects_rules, filter-Respects, each-Respects)

    deployment-Respects : Blind env (checkpoint_deployment env spec)
    unfolding checkpoint_deployment
    deployment-Respects = search (respects_rules, single-Respects) depth 8

    spec-Respects : Blind env (reconcile_spec env spec)
    unfolding reconcile_spec
    spec-Respects = search (respects_rules, deployment-Respects, single-Respects) depth 8

    fill_in_spec-Respects : Blind env (fill_in_spec env spec)
    unfolding fill_in_spec
    fill_in_spec-Respects = Respects-modify _ (fill_in-SameView spec.pod_name _ _ _ _ _)

  pub reconcile-Respects : (namespace name : Bytes) → Blind env (reconcile env namespace name)
  unfolding reconcile
  reconcile-Respects namespace name =
      search (respects_rules, fill_in_spec-Respects, spec-Respects) depth 8
