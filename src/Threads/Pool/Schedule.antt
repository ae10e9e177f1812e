-- ===== src/Threads/Pool/Schedule.antt =====
-- Interleavings by evaluation: the goroutines move in a given order.
use checkpoint_operator.Base.{ℕ, zero, suc, List, [], ◌∷◌, Option, none, some, false, ◌≡◌, refl}
use checkpoint_operator.Outcome.{ok, err, panic}
use checkpoint_operator.Cluster.{Trace}
use checkpoint_operator.Threads.{Prog, done, step}
use checkpoint_operator.Threads.Pool.{Moves, here, there, Alive, has_panicked, Reach, start, later}

record Move {S A : Type 0} (s : S) (t : Trace) (ps : List (Prog S A)) : Type 0 where
  threads : List (Prog S A)
  globals : S
  trace : Trace
  move : Moves s t ps threads globals trace

-- What some goroutines have come to, and how.
pub record Reached {S A : Type 0} (ps₀ : List (Prog S A)) (s₀ : S) (t₀ : Trace) : Type 0 where
  pub threads : List (Prog S A)
  pub globals : S
  pub trace : Trace
  pub reach : Reach ps₀ s₀ t₀ threads globals trace

both : {P Q : Type 0} → Option P → Option Q → Option (P × Q)
both (some p) (some q) = some (p, q)
both _ _ = none

module _ {S A : Type 0} where
  behind :
      (p : Prog S A) {s : S} {t : Trace} {ps : List (Prog S A)} → Move s t ps → Move s t (p ∷ ps)
  behind p m = record {
    threads = p ∷ m.threads;
    globals = m.globals;
    trace = m.trace;
    move = there m.move;
  }

  behind? :
      (p : Prog S A) {s : S} {t : Trace} {ps : List (Prog S A)}
      → Option (Move s t ps)
      → Option (Move s t (p ∷ ps))
  behind? p none = none
  behind? p (some m) = some (behind p m)

  -- The goroutine of a number makes a step, unless it has ended.
  pick : ℕ → (s : S) (t : Trace) (ps : List (Prog S A)) → Option (Move s t ps)
  pick i s t [] = none
  pick zero s t (done r ∷ ps) = none
  pick zero s t (step effect rest ∷ ps) =
      some (record { threads = rest s t ∷ ps; globals = _; trace = _; move = here })
  pick (suc i) s t (p ∷ ps) = behind? p (pick i s t ps)

  alive_head : (p : Prog S A) → Option (has_panicked p ≡ false)
  alive_head (done (ok a)) = some refl
  alive_head (done (err e)) = some refl
  alive_head (done panic) = none
  alive_head (step effect rest) = some refl

  alive? : (ps : List (Prog S A)) → Option (Alive ps)
  alive? [] = some tt
  alive? (p ∷ ps) = both (alive_head p) (alive? ps)

  module _ {ps₀ : List (Prog S A)} {s₀ : S} {t₀ : Trace} where
    after :
        (r : Reached ps₀ s₀ t₀)
        → Option (Alive r.threads)
        → Option (Move r.globals r.trace r.threads)
        → Reached ps₀ s₀ t₀
    after r (some alive) (some m) = record {
      threads = m.threads;
      globals = m.globals;
      trace = m.trace;
      reach = later r.reach alive m.move;
    }
    after r _ _ = r

    turns : Reached ps₀ s₀ t₀ → List ℕ → Reached ps₀ s₀ t₀
    turns r [] = r
    turns r (i ∷ is) = turns (after r (alive? r.threads) (pick i r.globals r.trace r.threads)) is

  unfoldable pub follow : (ps : List (Prog S A)) (s : S) (t : Trace) → List ℕ → Reached ps s t
  unfolding turns after alive? alive_head both pick behind? behind
  follow ps s t schedule =
      turns (record { threads = ps; globals = s; trace = t; reach = start }) schedule
