-- ===== src/Util/ImageCheck.antt =====
-- practice/util/check_origin_image.go: a job on the destination node pulls the images of a pod, and
-- the operator waits for it.
pub mod Invariants
pub mod Command
pub mod Polls
use checkpoint_operator.Base.{
  ℕ, zero, suc, ◌+◌, ◌-◌, List, [], ◌∷◌, ◌++◌, Bool, false, Bytes, codes, length, take, ltb, ◌==◌,
  ◌=s◌, if◌then◌else◌,
}
use checkpoint_operator.Outcome.{Error, Outcome, ok, err, panic, errorf, api}
use checkpoint_operator.Cluster.{Env, Job, NewJob, create_job, get_job, sleep}
use checkpoint_operator.Proc.{Proc, call, return, fail, observe, panics, on_error, ◌>>=◌, ◌>>◌}
use checkpoint_operator.Util.Clientset.{create_client_set}

abbrev pub docker_registry : Bytes
docker_registry = codes "docker-registry"

abbrev pub check_job_status_time : ℕ
check_job_status_time = 30

-- The loop over the image ids, each with ` && ` behind it.
unfoldable pub pull_commands : Bytes → List Bytes → Bytes
pull_commands command [] = command
pull_commands command (id ∷ ids) =
    pull_commands (command ++ codes "buildah pull " ++ id ++ codes " && ") ids

-- `s[:len(s)-4]`, a panic where `s` is shorter
unfoldable pub cut_last_four : Bytes → Outcome Bytes
cut_last_four s = if ltb (length s) 4 then panic else ok (take (length s - 4) s)

unfoldable pub check_job : Bytes → Bytes → Bytes → NewJob
check_job now command node = record {
  name = codes "check-image-id" ++ now;
  image = codes "quay.io/buildah/stable";
  command = codes "/bin/sh" ∷ [];
  args = codes "-c" ∷ command ∷ [];
  node_name = node;
}

-- The text of an error that a client library returned.
abbrev pub has_text : Error → Bytes → Bool
has_text (api text) s = text =s s
has_text _ s = false

abbrev pub not_found : Bytes → Bytes
not_found name = codes "jobs.batch \"" ++ name ++ codes "\" not found"

module _ (env : Env) {S : Type 0} where
  unfoldable pub check_image_id_exist_on_node : List Bytes → Bytes → Proc S Job
  unfolding check_job
  check_image_id_exist_on_node ids node = do
    create_client_set env
    command ← observe (λ _. cut_last_four (pull_commands [] ids))
    now ← observe (λ t. ok (env.now t))
    let job = check_job now command node
    call (create_job docker_registry job) (λ t. env.create_job t docker_registry job)

  -- What a round does after its Get: `more` is the next round, if `times` allows one.
  unfoldable pub after_get : Bytes → Proc S (Unit {0}) → Outcome Job → Proc S (Unit {0})
  after_get name more (ok job) = if job.succeeded == 1 then return tt else more
  after_get name more (err e) = if has_text e (not_found name) then more else fail e
  after_get name more panic = panics

  unfoldable pub exceeded : Proc S (Unit {0})
  exceeded = fail (errorf "job checktime exceeded" [])

  unfoldable pub get_status : Bytes → Proc S (Outcome Job)
  get_status name = do
    call (sleep 10) (λ _. ok tt)
    on_error (call (get_job docker_registry name) (λ t. env.get_job t docker_registry name))
        (λ e. return (err e)) (λ job. return (ok job))

  -- The loop. Its argument is `checkJobStatusTime + 1 - times`: it is 0 just if
  -- `times > checkJobStatusTime`, and each further round is one less.
  unfoldable pub poll_job : ℕ → Bytes → Proc S (Unit {0})
  poll_job zero name = do status ← get_status name; after_get name exceeded status
  poll_job (suc left) name = do status ← get_status name; after_get name (poll_job left name) status

  -- The parameter `status` of the source is not used there.
  unfoldable pub check_job_status : Bytes → Proc S (Unit {0})
  check_job_status name = create_client_set env >> poll_job (check_job_status_time + 1) name
