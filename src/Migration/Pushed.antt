-- ===== src/Migration/Pushed.antt =====
-- A container of a running pod becomes an image: the request to its kubelet, and the jobs.
use checkpoint_operator.Base.{List, [], ◌∷◌, Bytes, codes, select, ◌≡◌, ◌≢◌, refl, sym}
use checkpoint_operator.Outcome.{ok, panic}
use checkpoint_operator.Cluster.{
  Env, Pod, Container, Job, NewJob, MigrationSpec, Response, Trace, in_cluster_config,
  new_clientset, list_pods, create_job, get_job, sleep, list_jobs, delete_job, post,
}
use checkpoint_operator.Cluster.Reads.{writes}
use checkpoint_operator.Proc.{◌>>=◌}
use checkpoint_operator.Proc.Runs.{
  Runs, Runs-bind, Runs-on_error, Runs-return, Runs-give, Runs-call, Runs-parts,
}
use checkpoint_operator.Util.Globals.{PodsMap}
use checkpoint_operator.Util.ImageCheck.{docker_registry, check_job, pull_commands, cut_last_four}
use checkpoint_operator.Kubelet.{full_url, get_kubelet_client, checkpoint_pod}
use checkpoint_operator.RegistryIp.{registry_pods, return_registry_ip}
use checkpoint_operator.RegistryIp.Pick.{first_ip, last_ip, is_on, pick_registry-eq}
use checkpoint_operator.Util.ImageCheck.Command.{joined, Pulls, check_command}
use checkpoint_operator.Buildah.{build_job, delete_buildah_jobs}
use checkpoint_operator.Buildah.Pushes.{Pushes, build_job-Pushes}
use checkpoint_operator.Buildah.Deleted.{deleted, is_done, delete_buildah_jobs_deletes}
use checkpoint_operator.Migration.Invariants.{delete_jobs-P}
use checkpoint_operator.Migration.{
  checkpoint_address, first_item, push_checkpoint, checkpoint_container,
}
use checkpoint_operator.Migration.Jobs.{Reachable, client-Runs, checker-Runs, push-Runs}

-- Its kubelet makes the checkpoint and names its archive; the pod has images, the registry's pods can
-- be listed, and so can the jobs.
pub record Obliges (env : Env) (pod : Pod) (c : Container) (archive : Bytes) (registries : List Pod)
    (jobs : List Job) : Type 0 where
  pub reachable : Reachable env
  pub has_keys : env.load_key_pair ≡ ok tt
  pub has_ca : env.read_ca_file ≡ ok tt
  pub parses : env.new_request (full_url (checkpoint_address pod c)) ≡ ok tt
  pub response : Response
  pub answers : (t : Trace) → env.post t (full_url (checkpoint_address pod c)) ≡ ok response
  pub status : response.status_code ≡ 200
  pub body : Bytes
  pub reads : env.read_all response ≡ ok body
  pub others : List Bytes
  pub decodes : env.unmarshal_items body ≡ ok (archive ∷ others)
  pub first_image : Bytes
  pub other_images : List Bytes
  pub images : pod.image_ids ≡ first_image ∷ other_images
  pub lists_registries : (t : Trace) → env.list_pods t registry_pods ≡ ok registries
  pub lists_jobs : (t : Trace) → env.list_jobs t docker_registry ≡ ok jobs
  pub deletes : (t : Trace) (name : Bytes) → env.delete_job t docker_registry name ≢ panic

-- The address that the image is pushed to: the code looks for a node with the name of the namespace.
abbrev pub registry_for : MigrationSpec → List Pod → Bytes
registry_for spec registries =
    first_ip (last_ip [] registries) (select (is_on spec.destination_namespace) registries)

-- What the outside is asked to change after the kubelet's answer, the newest first: jobs that are done
-- are deleted, after the job that builds and pushes the image on the pod's node, after the job that
-- pulls the pod's own images on the destination's node.
pub record Pushed (spec : MigrationSpec) (pod : Pod) (archive : Bytes) (registries : List Pod)
    (jobs : List Job) (image : Bytes) (images : List Bytes) (before after : Trace) : Type 0 where
  pub check : NewJob
  pub build : NewJob
  pub pulls : Pulls image images spec.destination_node check
  pub pushes : Pushes pod.node_name archive (registry_for spec registries) build
  pub asked :
      after
      ≡ deleted (select is_done jobs) (
          create_job (codes "docker-registry") build
          ∷ create_job (codes "docker-registry") check
          ∷ before)

writes-deleted : (jobs : List Job) (t : Trace) → writes (deleted jobs t) ≡ deleted jobs (writes t)
writes-deleted [] t = refl
writes-deleted (job ∷ jobs) t = writes-deleted jobs (delete_job docker_registry job.name ∷ t)

module _ (env : Env) (spec : MigrationSpec) (pod : Pod) (c : Container) (archive : Bytes)
    (registries : List Pod) (jobs : List Job) (h : Obliges env pod c archive registries jobs)
    (s : PodsMap) where
  kubelet-Runs :
      (t : Trace)
      → Runs
          (checkpoint_pod env (get_kubelet_client env) (checkpoint_address pod c))
          s
          t
          h.response
          (post (full_url (checkpoint_address pod c)) ∷ t)
  unfolding checkpoint_pod get_kubelet_client ◌>>=◌
  kubelet-Runs t = rw (h.has_keys, h.has_ca, h.parses, h.answers t, h.status) refl

  delete_jobs-Runs :
      (t : Trace)
      → Runs
          (delete_buildah_jobs env)
          s
          t
          tt
          (deleted (select is_done jobs) (list_jobs docker_registry ∷ t))
  delete_jobs-Runs t =
      let (done, left) = delete_buildah_jobs_deletes env jobs s t h.deletes (h.lists_jobs t) in
      Runs-parts (delete_buildah_jobs env) s t done
        ((delete_jobs-P {P = λ s' t. s' ≡ s} env (λ c s t _ e. e)).at s t refl) left

  registry-Runs :
      (t : Trace)
      → Runs
          (return_registry_ip env spec.destination_namespace)
          s
          t
          (registry_for spec registries)
          (list_pods registry_pods ∷ t)
  unfolding return_registry_ip
  registry-Runs t =
      Runs-bind _ s _ (Runs-call s t (list_pods registry_pods) _ registries (h.lists_registries t))
        (rw (sym (pick_registry-eq spec.destination_namespace [] registries))
          (Runs-return s (list_pods registry_pods ∷ t) _))

  command_of :
      cut_last_four (pull_commands [] pod.image_ids) ≡ ok (joined h.first_image h.other_images)
  command_of = rw h.images ((check_command h.first_image h.other_images).0)

  push_checkpoint-Pushed :
      (t : Trace)
      → (t' : Trace) × Runs (push_checkpoint env spec pod (archive ∷ h.others)) s t tt t'
        × Pushed spec pod archive registries jobs h.first_image h.other_images
            (writes t)
            (writes t')
  unfolding push_checkpoint first_item check_job
  push_checkpoint-Pushed t =
      let t₁ = new_clientset ∷ in_cluster_config ∷ t in
      let t₂ = list_pods registry_pods ∷ t₁ in
      let node = spec.destination_node in
      let command = joined h.first_image h.other_images in
      let t₃ = new_clientset ∷ in_cluster_config ∷ t₂ in
      let job = check_job (env.now t₃) command node in
      let (j, _) = h.reachable.takes_job t₃ job in
      let t₄ =
        get_job docker_registry j.name
        ∷ sleep 10
        ∷ new_clientset
        ∷ in_cluster_config
        ∷ create_job docker_registry job
        ∷ t₃ in
      let checked = checker-Runs env h.reachable s pod node command t₂ command_of in
      let pushed =
        push-Runs env h.reachable s pod.node_name archive (registry_for spec registries) t₄ in
      (
        _,
        Runs-bind _ s _ (client-Runs env h.reachable s t) (
            Runs-bind _ s _ (registry-Runs t₁) (
              Runs-bind _ s _ checked (
                Runs-bind _ s _ (Runs-give s _ _ archive refl)
                  (Runs-bind _ s _ pushed (delete_jobs-Runs _))))),
        record {
          check = check_job (env.now t₃) command node;
          build = build_job (env.now t₄) pod.node_name archive (registry_for spec registries);
          pulls = record { image = refl; command = refl; args = refl; node_name = refl };
          pushes =
              build_job-Pushes (env.now t₄) pod.node_name archive (registry_for spec registries);
          asked = writes-deleted (select is_done jobs) _;
        },
      )

  pub checkpoint_container-Runs :
      (t : Trace)
      → (t' : Trace) × Runs (checkpoint_container env spec pod c) s t tt t'
        × Pushed spec pod archive registries jobs h.first_image h.other_images
            (post (full_url (checkpoint_address pod c)) ∷ writes t)
            (writes t')
  unfolding checkpoint_container
  checkpoint_container-Runs t =
      let (t', run, pushed) =
        push_checkpoint-Pushed (post (full_url (checkpoint_address pod c)) ∷ t) in
      (
        t',
        Runs-bind _ s _ (kubelet-Runs t) (
            Runs-on_error _ s _ _ (Runs-give s _ _ h.body h.reads)
              (Runs-on_error _ s _ _ (Runs-give s _ _ (archive ∷ h.others) h.decodes) run)),
        pushed,
      )
