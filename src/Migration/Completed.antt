-- ===== src/Migration/Completed.antt =====
-- Reconcile for one pod, from the object to the job that makes the image.
use checkpoint_operator.Base.{
  List, [], ◌++◌, codes, ◌∷◌, none, true, false, Bytes, is_empty, ◌=s◌, =s_iff, select, ◌≡◌, refl,
  ap,
}
use checkpoint_operator.Outcome.{ok}
use checkpoint_operator.Cluster.{
  Env, Container, Job, MigrationSpec, Pod, Trace, everywhere, get_migration, list_pods, post,
}
use checkpoint_operator.Cluster.Reads.{writes}
use checkpoint_operator.Proc.{for_each, on_error, branch, modify, ◌>>=◌}
use checkpoint_operator.Proc.Runs.{
  Runs, Runs-bind, Runs-on_error, Runs-return, Runs-call, Runs-one, Runs-when,
}
use checkpoint_operator.Util.Globals.{PodsMap}
use checkpoint_operator.Kubelet.{full_url}
use checkpoint_operator.Migration.{
  Result, running, checkpoint_address, filter_pods, checkpoint_container, checkpoint_each,
  checkpoint_single_pod, report, discard, reconcile_spec, fill_in_spec, reconcile,
}
use checkpoint_operator.Migration.Filter.{is_named, keep_named-eq}
use checkpoint_operator.Migration.Pushed.{Obliges, Pushed, checkpoint_container-Runs}

-- The object names a pod; one running pod of the cluster has the name, with one container.
pub record NamesOne (env : Env) (spec : MigrationSpec) (pod : Pod) (c : Container) : Type 0 where
  pub no_list : spec.specify ≡ []
  pub no_deployment : spec.deployment ≡ []
  pub items : List Pod
  pub lists : (t : Trace) → env.list_pods t everywhere ≡ ok items
  pub only : select (is_named spec.pod_name) items ≡ pod ∷ []
  pub runs : pod.phase ≡ running
  pub holds : pod.containers ≡ c ∷ []

abbrev pub succeeded : Result
succeeded = record { requeue_after = 0; error = none }

module _ (env : Env) (spec : MigrationSpec) (pod : Pod) (c : Container) (archive : Bytes)
    (registries : List Pod) (jobs : List Job) (named : NamesOne env spec pod c)
    (h : Obliges env pod c archive registries jobs) (s : PodsMap) where
  filter-Runs :
      (t : Trace) → Runs (filter_pods env spec none false) s t (pod ∷ []) (list_pods everywhere ∷ t)
  unfolding filter_pods
  filter-Runs t =
      Runs-bind _ s _ (Runs-call s t (list_pods everywhere) _ named.items (named.lists t)) (
        rw (keep_named-eq spec.pod_name named.items named.items, named.only)
          (Runs-return s (list_pods everywhere ∷ t) (pod ∷ [])))

  each-Runs :
      (t t' : Trace)
      → Runs (checkpoint_container env spec pod c) s t tt t'
      → Runs (checkpoint_each env spec (pod ∷ [])) s t tt t'
  unfolding checkpoint_each
  each-Runs t t' run =
      let each = for_each pod.containers (checkpoint_container env spec pod) in
      let guard : (pod.phase =s running) ≡ true = (=s_iff pod.phase running).1 named.runs in
      Runs-one (pod ∷ []) pod _ s t refl (
        Runs-when (pod.phase =s running) each s t guard
          (Runs-one pod.containers c _ s t named.holds run))

  spec-Runs :
      (t : Trace)
      → (t' : Trace) × Runs (reconcile_spec env spec) s t succeeded t'
        × Pushed spec pod archive registries jobs h.first_image h.other_images
            (post (full_url (checkpoint_address pod c)) ∷ writes t)
            (writes t')
  unfolding reconcile_spec checkpoint_single_pod report discard
  spec-Runs t =
      let (t', run, pushed) =
        checkpoint_container-Runs env spec pod c archive registries jobs h s
          (list_pods everywhere ∷ t) in
      let single : Runs (checkpoint_single_pod env spec none false) s t tt t' =
        Runs-bind _ s _ (filter-Runs t) (each-Runs (list_pods everywhere ∷ t) t' run) in
      let told : Runs (discard env spec (checkpoint_single_pod env spec none false)) s t succeeded
          t' =
        Runs-on_error _ s _ _ single (Runs-return s t' succeeded) in
      let no_list : is_empty spec.specify ≡ true = ap is_empty named.no_list in
      let no_deployment : is_empty spec.deployment ≡ true = ap is_empty named.no_deployment in
      (t', rw (no_list, no_deployment) told, pushed)

-- The checkpoint endpoint of the container on its pod's kubelet, with ten minutes' time.
abbrev pub checkpoint_url : Pod → Container → Bytes
checkpoint_url pod c =
    codes "https://"
    ++ pod.host_ip
    ++ codes ":10250/checkpoint/"
    ++ pod.namespace
    ++ b'/' ∷ pod.name
    ++ b'/' ∷ c.name
    ++ codes "?timeout=600000"

-- Where the object of a namespace and a name is fetched and names one running pod with one container,
-- the kubelet answers and names an archive, the pod has images, and the cluster takes jobs, of which
-- one is done when it is first looked at: Reconcile succeeds with no requeue, and has asked for just
-- this: the checkpoint from the pod's kubelet, the job that pulls the pod's images on the destination's
-- node, the job on the pod's node that makes an image of the archive, named by what its file name has
-- before the first underscore, and pushes it to the registry, and deletions of jobs that are done.
pub reconcile-Pushed :
    (env : Env) (spec : MigrationSpec) (pod : Pod) (c : Container) (archive : Bytes)
    (registries : List Pod) (jobs : List Job) (namespace name : Bytes) (s : PodsMap) (t : Trace)
    (h : Obliges env pod c archive registries jobs)
    → NamesOne env spec pod c
    → env.get_migration t namespace name ≡ ok spec
    → let r = reconcile env namespace name s t in
      (r.outcome ≡ ok succeeded)
      × Pushed spec pod archive registries jobs h.first_image h.other_images
          (post (checkpoint_url pod c) ∷ writes t)
          (writes r.trace)
unfolding full_url checkpoint_address reconcile fill_in_spec modify on_error ◌>>=◌
reconcile-Pushed env spec pod c archive registries jobs namespace name s t h named fetched =
    let held = (fill_in_spec env spec s t).globals in
    let (t', run, pushed) =
      spec-Runs env spec pod c archive registries jobs named h held
        (get_migration namespace name ∷ t) in
    (
      rw (fetched, branch) (ap (λ r. r.outcome) run),
      rw (fetched, branch) (rw (ap (λ r. r.trace) run) pushed),
    )
