-- ===== src/Restore/Justified.antt =====
-- Why the daemon deletes a pod.
use checkpoint_operator.Base.{
  ℕ, zero, suc, [], ◌∷◌, Bytes, true, Option, none, ◌≡◌, refl, ◌⊎◌, inl, inr, arith,
}
use checkpoint_operator.Outcome.{Error, Outcome, ok, err, panic, is_ok}
use checkpoint_operator.Cluster.{
  Env, Trace, Feed, expired, deadline, failed, fetched, Message, delete_pod, get_pod, commit, fetch,
}
use checkpoint_operator.Proc.{Run, ◌>>=◌, on_error, call, return, continue, observe}
use checkpoint_operator.Proc.Keeps.{Keeps, Keeps-call, Keeps-bind, keeps_rules}
use checkpoint_operator.Util.Clientset.{create_client_set, through}
use checkpoint_operator.Kafka.{
  delete_pod_topic, Notice, no_notice, read_notice, notice_loop, consume_notice,
}
use checkpoint_operator.Restore.{after_dash, delete_old_pod, handle_notice, restore_round, main}

-- The message tells the daemon to delete this pod.
abbrev pub Tells : Bytes → Bytes → Message → Type 0
Tells namespace name m =
    (n : Notice) × (read_notice m ≡ ok n) × (n.namespace ≡ namespace) × (after_dash n.pod ≡ name)

-- A message that is committed in the trace does so.
abbrev pub WasTold : Bytes → Bytes → Trace → Type 0
WasTold namespace name [] = ⊥
WasTold namespace name (commit m ∷ t) = Tells namespace name m ⊎ WasTold namespace name t
WasTold namespace name (c ∷ t) = WasTold namespace name t

-- The newest call is a successful look at this pod, after such a message.
abbrev pub HasReason : Env → Bytes → Bytes → Trace → Type 0
HasReason env namespace name (get_pod namespace' name' ∷ t) =
    (namespace' ≡ namespace)
    × (name' ≡ name)
    × (is_ok (env.get_pod t namespace name) ≡ true)
    × WasTold namespace name t
HasReason env namespace name _ = ⊥

-- Each deletion in the trace has its reason directly before it.
abbrev pub Justified : Env → Trace → Type 0
Justified env [] = Unit
Justified env (delete_pod namespace name ∷ t) = HasReason env namespace name t × Justified env t
Justified env (c ∷ t) = Justified env t

-- What the consumer hands over, it was told.
abbrev HandsOver : Trace → Outcome (Notice × Option Error) → Type 0
HandsOver t (ok (n, e)) = (n ≡ no_notice) ⊎ WasTold n.namespace (after_dash n.pod) t
HandsOver t (err e) = Unit
HandsOver t panic = Unit

module _ (env : Env) {S : Type 0} where
  abbrev Ready : Bytes → Bytes → S → Trace → Type 0
  Ready namespace name s t = Justified env t × WasTold namespace name t

  client_set-Ready : (namespace name : Bytes) → Keeps (Ready namespace name) (create_client_set env)
  unfolding create_client_set
  client_set-Ready namespace name = search (keeps_rules, Keeps-call) depth 8

  -- The calls of a deletion, after those that make the client.
  delete_old_pod_calls :
      (namespace name : Bytes) (s : S) (t : Trace)
      → let t' = (create_client_set env s t).trace in
        let u = (delete_old_pod env namespace name s t).trace in
        (u ≡ t')
        ⊎ (u ≡ get_pod namespace name ∷ t')
        ⊎ ((u ≡ delete_pod namespace name ∷ get_pod namespace name ∷ t')
            × (is_ok (env.get_pod t' namespace name) ≡ true))
  unfolding delete_old_pod through ◌>>=◌ on_error
  delete_old_pod_calls namespace name s t = ground arith

  delete_old_pod-Justified :
      (namespace name : Bytes) (s : S) (t : Trace)
      → Ready namespace name s t
      → Justified env (delete_old_pod env namespace name s t).trace
  delete_old_pod-Justified namespace name s t h =
      let (kept, told) = (client_set-Ready namespace name).at s t h in
      elim (delete_old_pod_calls namespace name s t) [
        | inl e ↦ rw e kept
        | inr (inl e) ↦ rw e kept
        | inr (inr (e, found)) ↦ rw e ((refl, refl, found, told), kept)
      ]

  handle_notice-Justified :
      (n : Notice) (s : S) (t : Trace)
      → Justified env t
      → (n ≡ no_notice) ⊎ WasTold n.namespace (after_dash n.pod) t
      → Justified env (handle_notice env n s t).trace
  unfolding handle_notice return ◌>>=◌
  handle_notice-Justified n s t h (inl e) = rw e h
  handle_notice-Justified n s t h (inr told) =
      ground (arith, delete_old_pod-Justified n.namespace (after_dash n.pod) s t (h, told))

  handed_outcome :
      (q : Outcome (Notice × Option Error)) (s : S) (t : Trace)
      → Justified env t × HandsOver t q
      → Justified env (continue q (λ (n, e). handle_notice env n) s t).trace
  handed_outcome (ok (n, e)) s t h = handle_notice-Justified n s t h.0 h.1
  handed_outcome (err e) s t h = h.0
  handed_outcome panic s t h = h.0

  -- A round goes on with what the consumer hands over.
  handed :
      (r : Run S (Notice × Option Error))
      → Justified env r.trace × HandsOver r.trace r.outcome
      → Justified env (continue r.outcome (λ (n, e). handle_notice env n) r.globals r.trace).trace
  handed r h = handed_outcome r.outcome r.globals r.trace h

  parsed-HandsOver :
      (q : Outcome Notice) (s : S) (u : Trace)
      → Justified env u
      → ((n : Notice) → q ≡ ok n → WasTold n.namespace (after_dash n.pod) u)
      → let r = continue {B = Notice × Option Error} q (λ n. return (n, none)) s u in
        Justified env r.trace × HandsOver r.trace r.outcome
  unfolding return
  parsed-HandsOver (ok n) s u h told = (h, inr (told n refl))
  parsed-HandsOver (err e) s u h told = (h, tt)
  parsed-HandsOver panic s u h told = (h, tt)

  notice_loop-HandsOver :
      (feed : Feed) (s : S) (t : Trace)
      → Justified env t
      → let r = notice_loop feed s t in Justified env r.trace × HandsOver r.trace r.outcome
  unfolding notice_loop ◌>>=◌ on_error call return
  notice_loop-HandsOver expired s t h = (h, inl refl)
  notice_loop-HandsOver deadline s t h = (h, inl refl)
  notice_loop-HandsOver (failed rest) s t h = notice_loop-HandsOver rest s (fetch ∷ t) h
  notice_loop-HandsOver (fetched m (ok x) rest) s t h =
      parsed-HandsOver (read_notice m) s (commit m ∷ fetch ∷ t) h (λ n e. inl (n, e, refl, refl))
  notice_loop-HandsOver (fetched m (err e) rest) s t h =
      parsed-HandsOver (read_notice m) s (commit m ∷ fetch ∷ t) h (λ n e. inl (n, e, refl, refl))
  notice_loop-HandsOver (fetched m panic rest) s t h = (h, tt)

  pub round-Keeps : Keeps (λ (s : S) t. Justified env t) (restore_round env)
  unfolding restore_round consume_notice ◌>>=◌ observe
  round-Keeps = record { at = at }
    where
      at : (s : S) (t : Trace) → Justified env t → Justified env (restore_round env s t).trace
      at s t h =
          handed (notice_loop (env.feed t delete_pod_topic) s t)
            (notice_loop-HandsOver (env.feed t delete_pod_topic) s t h)

  main-Keeps : (rounds : ℕ) → Keeps (λ (s : S) t. Justified env t) (main env rounds)
  unfolding main
  main-Keeps zero = search keeps_rules depth 2
  main-Keeps (suc rounds) =
      Keeps-bind (restore_round env) (λ _. main env rounds) round-Keeps (λ _. main-Keeps rounds)

-- If it is so in the trace before the run, then however many rounds the daemon makes, whatever the
-- broker offers and however the calls end: each deletion in the trace comes directly after a
-- successful look at the same pod, and that after a message that the daemon has tried to commit, which
-- names the pod's namespace, and whose key has the pod's name after its first dash.
pub main-Justified :
    (env : Env) {S : Type 0} (rounds : ℕ) (s : S) (t : Trace)
    → Justified env t
    → Justified env (main env rounds s t).trace
main-Justified env rounds s t h = (main-Keeps env rounds).at s t h
