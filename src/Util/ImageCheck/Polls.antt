-- ===== src/Util/ImageCheck/Polls.antt =====
-- How long the operator waits for a job.
use checkpoint_operator.Base.{
  ℕ, zero, suc, ◌+◌, ◌≤◌, [], ◌∷◌, ◌++◌, codes, Bytes, Bool, false, ◌==◌, if◌then◌else◌, ◌≡◌, arith,
}
use checkpoint_operator.Outcome.{ok}
use checkpoint_operator.Cluster.{
  Env, Trace, Job, sleep, get_job, new_clientset, in_cluster_config, build_config,
}
use checkpoint_operator.Proc.{◌>>=◌, on_error}
use checkpoint_operator.Util.Clientset.{create_client_set}
use checkpoint_operator.Util.ImageCheck.{
  after_get, exceeded, get_status, poll_job, check_job_status, docker_registry,
}

-- The Gets of jobs in a trace.
abbrev pub polls : Trace → ℕ
polls [] = 0
polls (get_job namespace name ∷ t) = suc (polls t)
polls (c ∷ t) = polls t

-- The newest call was a sleep of ten seconds.
abbrev pub has_slept : Trace → Bool
has_slept (sleep seconds ∷ t) = seconds == 10
has_slept _ = false

-- The Gets of jobs in a trace that did not come directly after a sleep of ten seconds.
abbrev pub hurried : Trace → ℕ
hurried [] = 0
hurried (get_job namespace name ∷ t) = if has_slept t then hurried t else suc (hurried t)
hurried (c ∷ t) = hurried t

-- The newest call got a job that has succeeded once.
abbrev pub JustSucceeded : Env → Bytes → Trace → Type 0
JustSucceeded env name (get_job namespace got ∷ t) =
    (got ≡ name) × (job : Job) × (env.get_job t namespace got ≡ ok job) × (job.succeeded ≡ 1)
JustSucceeded env name _ = ⊥

module _ (env : Env) {S : Type 0} (name : Bytes) where
  poll_job-polls :
      (left : ℕ) (s : S) (t : Trace) → polls (poll_job env left name s t).trace ≤ polls t + left + 1
  unfolding poll_job get_status after_get exceeded ◌>>=◌ on_error
  poll_job-polls zero s t = ground arith
  poll_job-polls (suc left) s t =
      ground (arith, poll_job-polls left s (get_job docker_registry name ∷ sleep 10 ∷ t))

  poll_job-hurried :
      (left : ℕ) (s : S) (t : Trace) → hurried (poll_job env left name s t).trace ≡ hurried t
  unfolding poll_job get_status after_get exceeded ◌>>=◌ on_error
  poll_job-hurried zero s t = ground arith
  poll_job-hurried (suc left) s t =
      ground (arith, poll_job-hurried left s (get_job docker_registry name ∷ sleep 10 ∷ t))

  poll_job-JustSucceeded :
      (left : ℕ) (s : S) (t : Trace)
      → (poll_job env left name s t).outcome ≡ ok tt
      → JustSucceeded env name (poll_job env left name s t).trace
  unfolding poll_job get_status after_get exceeded ◌>>=◌ on_error
  poll_job-JustSucceeded zero s t h = ground arith
  poll_job-JustSucceeded (suc left) s t h =
      ground (arith, poll_job-JustSucceeded left s (get_job docker_registry name ∷ sleep 10 ∷ t))

-- The operator asks for the job at most 32 times, and each time directly after a sleep of ten
-- seconds. It succeeds only if the last of these answers is a job that has succeeded.
pub check_job_status_waits :
    (env : Env) {S : Type 0} (name : Bytes) (s : S) (t : Trace)
    → let r = check_job_status env name s t in
      (polls r.trace ≤ polls t + 32)
      × (hurried r.trace ≡ hurried t)
      × (r.outcome ≡ ok tt → JustSucceeded env name r.trace)
unfolding check_job_status create_client_set ◌>>=◌ on_error
check_job_status_waits env name s t =
    let inside = new_clientset ∷ in_cluster_config ∷ t in
    let outside =
      new_clientset ∷ build_config (env.home ++ codes "/.kube/config") ∷ in_cluster_config ∷ t in
    (
      ground (arith, poll_job-polls env name 31 s inside, poll_job-polls env name 31 s outside),
      ground (arith, poll_job-hurried env name 31 s inside, poll_job-hurried env name 31 s outside),
      λ h. ground (
        arith,
        poll_job-JustSucceeded env name 31 s inside,
        poll_job-JustSucceeded env name 31 s outside,
      ),
    )
