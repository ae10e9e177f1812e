-- ===== src/Migration/Jobs.antt =====
-- The jobs that the reconciler starts, on a cluster that takes them.
use checkpoint_operator.Base.{[], ◌∷◌, true, Bytes, ◌==◌, if◌then◌else◌, ◌≡◌, refl, arith}
use checkpoint_operator.Outcome.{ok}
use checkpoint_operator.Cluster.{
  Env, Pod, Job, NewJob, Trace, in_cluster_config, new_clientset, create_job, get_job, sleep,
}
use checkpoint_operator.Proc.{◌>>=◌, on_error}
use checkpoint_operator.Proc.Runs.{
  Runs, Runs-bind, Runs-on_error, Runs-return, Runs-observe, Runs-call, Runs-or_fail,
}
use checkpoint_operator.Util.Clientset.{create_client_set}
use checkpoint_operator.Util.ImageCheck.{
  docker_registry, check_job, pull_commands, cut_last_four, check_image_id_exist_on_node,
  check_job_status, poll_job, get_status, after_get,
}
use checkpoint_operator.Buildah.{build_job, buildah_pod_push_image}
use checkpoint_operator.Deploy.{original_image_checker}

-- The cluster can be reached and takes jobs; one that it is asked about is done.
pub record Reachable (env : Env) : Type 0 where
  pub configured : (t : Trace) → env.in_cluster_config t ≡ ok tt
  pub connected : (t : Trace) → env.new_clientset t ≡ ok tt
  pub takes_job :
      (t : Trace) (job : NewJob) → (j : Job) × (env.create_job t docker_registry job ≡ ok j)
  pub done_job :
      (t : Trace) (name : Bytes)
      → (j : Job) × (env.get_job t docker_registry name ≡ ok j) × ((j.succeeded == 1) ≡ true)

module _ (env : Env) (h : Reachable env) {S : Type 0} (s : S) where
  pub client-Runs :
      (t : Trace) → Runs (create_client_set env) s t tt (new_clientset ∷ in_cluster_config ∷ t)
  unfolding create_client_set ◌>>=◌ on_error
  client-Runs t = ground (arith, h.configured t, h.connected (in_cluster_config ∷ t))

  status-Runs :
      (name : Bytes) (t : Trace)
      → Runs
          (get_status env name)
          s
          t
          (ok (h.done_job (sleep 10 ∷ t) name).0)
          (get_job docker_registry name ∷ sleep 10 ∷ t)
  unfolding get_status
  status-Runs name t =
      let (job, found, _) = h.done_job (sleep 10 ∷ t) name in
      Runs-bind _ s _ (Runs-call s t (sleep 10) _ tt refl) (
        Runs-on_error _ s _ _ (Runs-call s (sleep 10 ∷ t) _ _ job found) (Runs-return s _ (ok job)))

  -- One poll is enough.
  poll-Runs :
      (name : Bytes) (t : Trace)
      → Runs (poll_job env 31 name) s t tt (get_job docker_registry name ∷ sleep 10 ∷ t)
  unfolding poll_job after_get
  poll-Runs name t =
      Runs-bind _ s _ (status-Runs name t)
        (rw ((h.done_job (sleep 10 ∷ t) name).2, if◌then◌else◌) (Runs-return s _ tt))

  job_status-Runs :
      (name : Bytes) (t : Trace)
      → Runs
          (check_job_status env name)
          s
          t
          tt
          (get_job docker_registry name ∷ sleep 10 ∷ new_clientset ∷ in_cluster_config ∷ t)
  unfolding check_job_status
  job_status-Runs name t = Runs-bind _ s _ (client-Runs t) (poll-Runs name _)

  -- The job that pulls the images of a pod, and the wait for it.
  pub checker-Runs :
      (pod : Pod) (node command : Bytes) (t : Trace)
      → cut_last_four (pull_commands [] pod.image_ids) ≡ ok command
      → let t₁ = new_clientset ∷ in_cluster_config ∷ t in
        let job = check_job (env.now t₁) command node in
        let (j, _) = h.takes_job t₁ job in
        Runs (original_image_checker env pod node) s t tt (
          get_job docker_registry j.name
          ∷ sleep 10
          ∷ new_clientset
          ∷ in_cluster_config
          ∷ create_job docker_registry job
          ∷ t₁)
  unfolding original_image_checker check_image_id_exist_on_node
  checker-Runs pod node command t e =
      let t₁ = new_clientset ∷ in_cluster_config ∷ t in
      let job = check_job (env.now t₁) command node in
      let (j, taken) = h.takes_job t₁ job in
      Runs-bind _ s _
        (Runs-or_fail _ _ s j (
          Runs-bind _ s _ (client-Runs t) (
            Runs-bind _ s _ (Runs-observe s t₁ _ command e) (
              Runs-bind _ s _ (Runs-observe s t₁ _ (env.now t₁) refl)
                (Runs-call s t₁ _ _ j taken)))))
        (Runs-or_fail _ _ s tt (job_status-Runs j.name _))

  pub push-Runs :
      (node checkpoint ip : Bytes) (t : Trace)
      → Runs (buildah_pod_push_image env node docker_registry checkpoint ip) s t tt (
          create_job docker_registry (build_job (env.now t) node checkpoint ip)
          ∷ new_clientset
          ∷ in_cluster_config
          ∷ t)
  unfolding buildah_pod_push_image
  push-Runs node checkpoint ip t =
      let job = build_job (env.now t) node checkpoint ip in
      let t₁ = new_clientset ∷ in_cluster_config ∷ t in
      let (j, taken) = h.takes_job t₁ job in
      Runs-bind _ s _ (Runs-observe s t _ (env.now t) refl) (
        Runs-bind _ s _ (client-Runs t)
          (Runs-bind _ s _ (Runs-call s t₁ _ _ j taken) (Runs-return s _ tt)))
