-- ===== src/Buildah/Deleted.antt =====
-- Which jobs are cleaned up.
use checkpoint_operator.Base.{
  List, [], ◌∷◌, Bool, true, false, Bytes, ◌==◌, if◌then◌else◌, select, ◌≡◌, ◌≢◌, refl, arith, ◌∙◌,
  ap,
}
use checkpoint_operator.Outcome.{ok, panic}
use checkpoint_operator.Cluster.{Env, Job, Trace, delete_job, list_jobs}
use checkpoint_operator.Proc.{on_error, for_each, branch}
use checkpoint_operator.Proc.Inversion.{bind_from}
use checkpoint_operator.Util.ImageCheck.{docker_registry}
use checkpoint_operator.Buildah.{delete_if_done, delete_buildah_jobs}

abbrev pub is_done : Job → Bool
is_done job = job.succeeded == 1

-- The trace once some jobs are deleted, the newest first.
abbrev pub deleted : List Job → Trace → Trace
deleted [] t = t
deleted (job ∷ jobs) t = deleted jobs (delete_job docker_registry job.name ∷ t)

deleted-if :
    (b : Bool) (job : Job) (jobs : List Job) (t : Trace)
    → deleted jobs (if b then delete_job docker_registry job.name ∷ t else t)
      ≡ deleted (if b then job ∷ jobs else jobs) t
deleted-if true job jobs t = refl
deleted-if false job jobs t = refl

module _ (env : Env) {S : Type 0}
    (no_panic : (t : Trace) (name : Bytes) → env.delete_job t docker_registry name ≢ panic) where
  delete_if_done-eq :
      (job : Job) (s : S) (t : Trace)
      → let r = delete_if_done env job s t in
        (r.outcome ≡ ok tt)
        × (r.globals ≡ s)
        × (r.trace ≡ (if is_done job then delete_job docker_registry job.name ∷ t else t))
  unfolding delete_if_done on_error
  delete_if_done-eq job s t = ground (arith, no_panic t job.name)

  delete_each-eq :
      (jobs : List Job) (s : S) (t : Trace)
      → let r = for_each jobs (delete_if_done env) s t in
        (r.outcome ≡ ok tt) × (r.trace ≡ deleted (select is_done jobs) t)
  unfolding for_each
  delete_each-eq [] s t = (refl, refl)
  delete_each-eq (job ∷ jobs) s t =
      let r = delete_if_done env job s t in
      let (done, same, trace) = delete_if_done-eq job s t in
      let run =
        bind_from (delete_if_done env job) (λ _. for_each jobs (delete_if_done env)) s t tt done in
      let rest = delete_each-eq jobs r.globals r.trace in
      rw run (
        rest.0,
        rest.1
            ∙ ap (deleted (select is_done jobs)) trace
            ∙ deleted-if (is_done job) job (select is_done jobs) t,
      )

-- Where the jobs can be listed and the client does not panic, each listed job that has succeeded
-- once is asked to be deleted, in the order of the list, and no other; an error of a deletion
-- stops nothing.
pub delete_buildah_jobs_deletes :
    (env : Env) {S : Type 0} (jobs : List Job) (s : S) (t : Trace)
    → ((t : Trace) (name : Bytes) → env.delete_job t docker_registry name ≢ panic)
    → env.list_jobs t docker_registry ≡ ok jobs
    → ((delete_buildah_jobs env s t).outcome ≡ ok tt)
      × ((delete_buildah_jobs env s t).trace
          ≡ deleted (select is_done jobs) (list_jobs docker_registry ∷ t))
unfolding delete_buildah_jobs on_error
delete_buildah_jobs_deletes env [] s t no_panic e = rw (e, branch) (refl, refl)
delete_buildah_jobs_deletes env (job ∷ jobs) s t no_panic e =
    rw (e, branch) (delete_each-eq env no_panic (job ∷ jobs) s (list_jobs docker_registry ∷ t))
