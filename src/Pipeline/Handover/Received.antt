-- ===== src/Pipeline/Handover/Received.antt =====
-- The daemon commits only what it is offered.
use checkpoint_operator.Base.{Bytes, Option, none}
use checkpoint_operator.Outcome.{Error, Outcome, ok, err, panic}
use checkpoint_operator.Cluster.{Env, Trace, Feed, expired, deadline, failed, fetched, Message}
use checkpoint_operator.Proc.{Proc, ◌>>=◌, return, give, observe}
use checkpoint_operator.Proc.Keeps.{
  Keeps, Keeps-bind, Keeps-call, Keeps-on_error, Keeps-continue, keeps_rules,
}
use checkpoint_operator.Util.Clientset.{create_client_set, through}
use checkpoint_operator.Kafka.{Notice, delete_pod_topic, read_notice, notice_loop, consume_notice}
use checkpoint_operator.Restore.{delete_old_pod, handle_notice, restore_round}
use checkpoint_operator.Pipeline.Handover.{Offers, Received}

module _ (renv : Env) (operator : Trace) where
  abbrev Receives : Unit {0} → Trace → Type 0
  Receives s t = Received operator t

  client_set-Receives : Keeps Receives (create_client_set renv)
  unfolding create_client_set
  client_set-Receives = search (keeps_rules, Keeps-call) depth 8

  through-Receives :
      {A : Type 0} (c : Outcome (Unit {0})) (m : Proc (Unit {0}) A)
      → Keeps Receives m
      → Keeps Receives (through c m)
  unfolding through
  through-Receives (ok a) m k = k
  through-Receives (err e) m k = search keeps_rules
  through-Receives panic m k = search keeps_rules

  delete_old_pod-Receives :
      (namespace name : Bytes) → Keeps Receives (delete_old_pod renv namespace name)
  unfolding delete_old_pod
  delete_old_pod-Receives namespace name =
      search (keeps_rules, Keeps-call, client_set-Receives, through-Receives) depth 12

  handle_notice-Receives : (n : Notice) → Keeps Receives (handle_notice renv n)
  unfolding handle_notice
  handle_notice-Receives n = search (keeps_rules, delete_old_pod-Receives) depth 8

  parsed-Receives :
      (m : Message)
      → Keeps Receives (give (read_notice m) >>= λ n. return {A = Notice × Option Error} (n, none))
  parsed-Receives m = search keeps_rules depth 8

  notice_loop-Receives : (feed : Feed) → Offers operator feed → Keeps Receives (notice_loop feed)
  unfolding notice_loop
  notice_loop-Receives expired h = search keeps_rules depth 4
  notice_loop-Receives deadline h = search keeps_rules depth 4
  notice_loop-Receives (failed rest) h =
      Keeps-bind _ _ (Keeps-call _ _ (λ s t r. r)) (λ _. notice_loop-Receives rest h)
  notice_loop-Receives (fetched m committed rest) (sent, h) =
      Keeps-bind _ _ (Keeps-call _ _ (λ s t r. r)) (λ _.
        Keeps-on_error _ _ _ (Keeps-call _ _ (λ s t r. (sent, r))) (λ _. parsed-Receives m)
          (λ _. parsed-Receives m))

  pub round-Receives :
      (t : Trace)
      → Offers operator (renv.feed t delete_pod_topic)
      → Received operator t
      → Received operator (restore_round renv {S = Unit {0}} tt t).trace
  unfolding restore_round consume_notice ◌>>=◌ observe
  round-Receives t offered r =
      let run = notice_loop (renv.feed t delete_pod_topic) tt t in
      (Keeps-continue run.outcome (λ (n, e). handle_notice renv n)
          (λ (n, e). handle_notice-Receives n)).at
        run.globals run.trace ((notice_loop-Receives _ offered).at tt t r)
