-- ===== src/Util/ImageCheck/Invariants.antt =====
-- An invariant that the calls of the job loop keep is kept by the loop.
use checkpoint_operator.Base.{ℕ, zero, suc, ◌∷◌, Bytes, ◌≡◌, Bool, true, false}
use checkpoint_operator.Outcome.{Outcome, ok, err, panic}
use checkpoint_operator.Cluster.{
  Env, Call, Trace, Job, sleep, get_job, in_cluster_config, build_config, new_clientset,
}
use checkpoint_operator.Proc.{Proc, call}
use checkpoint_operator.Proc.Keeps.{Keeps, Keeps-call, Keeps-bind, keeps_rules}
use checkpoint_operator.Util.Clientset.{create_client_set}
use checkpoint_operator.Util.ImageCheck.{
  after_get, exceeded, get_status, poll_job, check_job_status,
}

-- The calls of the loop.
abbrev pub is_poll : Call → Bool
is_poll (sleep seconds) = true
is_poll (get_job namespace name) = true
is_poll in_cluster_config = true
is_poll (build_config path) = true
is_poll new_clientset = true
is_poll _ = false

module _ {S : Type 0} {P : S → Trace → Type 0} (env : Env)
    (calls : (c : Call) (s : S) (t : Trace) → is_poll c ≡ true → P s t → P s (c ∷ t)) where
  call-P : {A : Type 0} (c : Call) (f : Trace → Outcome A) → is_poll c ≡ true → Keeps P (call c f)
  call-P c f e = Keeps-call c f (λ s t h. calls c s t e h)

  client-P : Keeps P (create_client_set env)
  unfolding create_client_set
  client-P = search (keeps_rules, call-P) depth 8

  status-P : (name : Bytes) → Keeps P (get_status env name)
  unfolding get_status
  status-P name = search (keeps_rules, call-P) depth 8

  after_get-P :
      (name : Bytes) (more : Proc S (Unit {0})) (r : Outcome Job)
      → Keeps P more
      → Keeps P (after_get env name more r)
  unfolding after_get
  after_get-P name more (ok job) k = search keeps_rules
  after_get-P name more (err e) k = search keeps_rules
  after_get-P name more panic k = search keeps_rules

  exceeded-P : Keeps P (exceeded env)
  unfolding exceeded
  exceeded-P = search keeps_rules

  poll_job-P : (left : ℕ) (name : Bytes) → Keeps P (poll_job env left name)
  unfolding poll_job
  poll_job-P zero name =
      Keeps-bind _ _ (status-P name) (λ r. after_get-P name (exceeded env) r exceeded-P)
  poll_job-P (suc left) name =
      Keeps-bind _ _ (status-P name)
        (λ r. after_get-P name (poll_job env left name) r (poll_job-P left name))

  pub check_job_status-Keeps : (name : Bytes) → Keeps P (check_job_status env name)
  unfolding check_job_status
  check_job_status-Keeps name = search (keeps_rules, client-P, poll_job-P) depth 8
