-- ===== src/Buildah.antt =====
-- practice/handlers/buildah.go: the job that makes an image of a checkpoint and pushes it.
pub mod Deleted
pub mod Pushes
use checkpoint_operator.Base.{[], ◌∷◌, ◌++◌, Bytes, codes, is_empty, ◌==◌, if◌then◌else◌}
use checkpoint_operator.Outcome.{ok}
use checkpoint_operator.Cluster.{Env, Job, NewJob, create_job, list_jobs, delete_job}
use checkpoint_operator.Proc.{Proc, call, return, observe, on_error, for_each, when, ◌>>=◌, ◌>>◌}
use checkpoint_operator.Util.Clientset.{create_client_set}
use checkpoint_operator.Util.ImageCheck.{docker_registry}
use checkpoint_operator.Util.ImageName.{modify_checkpoint_to_image_name}

-- The place that the image is pushed to.
unfoldable pub image_reference : Bytes → Bytes → Bytes
image_reference ip name = ip ++ codes ":5000/" ++ name ++ codes ":latest"

-- The shell command of the job.
unfoldable pub build_command : Bytes → Bytes → Bytes → Bytes
build_command checkpoint name ip =
    codes "newcontainer=$(buildah from scratch); buildah add $newcontainer "
    ++ checkpoint
    ++ codes " /; buildah config --annotation=io.kubernetes.cri-o.annotations.checkpoint.name="
    ++ name
    ++ codes " $newcontainer; buildah commit $newcontainer "
    ++ name
    ++ codes ":latest; buildah rm $newcontainer; "
    ++ codes "buildah push --creds=myuser:mypasswd --tls-verify=false localhost/"
    ++ name
    ++ codes ":latest "
    ++ image_reference ip name
    ++ codes ";"

unfoldable pub build_job : Bytes → Bytes → Bytes → Bytes → NewJob
build_job now node checkpoint ip = record {
  name = codes "buildah-job-" ++ now;
  image = codes "quay.io/buildah/stable";
  command = codes "/bin/bash" ∷ [];
  args = codes "-c" ∷ build_command checkpoint (modify_checkpoint_to_image_name checkpoint) ip ∷ [];
  node_name = node;
}

module _ (env : Env) {S : Type 0} where
  unfoldable pub buildah_pod_push_image : Bytes → Bytes → Bytes → Bytes → Proc S (Unit {0})
  buildah_pod_push_image node namespace checkpoint ip = do
    now ← observe (λ t. ok (env.now t))
    create_client_set env
    let job = build_job now node checkpoint ip
    call (create_job namespace job) (λ t. env.create_job t namespace job)
    return tt

  -- Only jobs that are done are deleted; an error of the deletion is not looked at.
  unfoldable pub delete_if_done : Job → Proc S (Unit {0})
  delete_if_done job = when (job.succeeded == 1) (
      on_error
        (call (delete_job docker_registry job.name)
          (λ t. env.delete_job t docker_registry job.name))
        (λ _. return tt) (λ _. return tt))

  -- An error of the listing is no error of the function.
  unfoldable pub delete_buildah_jobs : Proc S (Unit {0})
  delete_buildah_jobs =
      on_error (call (list_jobs docker_registry) (λ t. env.list_jobs t docker_registry))
        (λ _. return tt) (λ jobs. if is_empty jobs then return tt else for_each jobs delete_if_done)
