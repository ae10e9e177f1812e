-- ===== src/Threads.antt =====
-- Goroutines: a run of Go code as a tree of atomic steps, and the interleavings of several runs over
-- the same package variables.
pub mod Pool
pub mod Refines
pub mod Safe
use checkpoint_operator.Base.{List, [], ◌∷◌}
use checkpoint_operator.Outcome.{Error, Outcome, ok, err, panic}
use checkpoint_operator.Cluster.{Trace}
use checkpoint_operator.Proc.{Proc, Run}

-- A run that has ended, or whose next step has an effect on the variables and the trace as it finds
-- them, and goes on with what it has read.
pub data Prog (S A : Type 0) : Type 0 where
  done : Outcome A → Prog S A
  step : (S → Trace → S × Trace) → (S → Trace → Prog S A) → Prog S A

module _ {S A : Type 0} where
  -- A call, or an access to a variable, that no other run can interrupt.
  unfoldable pub atomic : Proc S A → Prog S A
  atomic m = step (λ s t. ((m s t).globals, (m s t).trace)) (λ s t. done (m s t).outcome)

  -- Without other runs.
  unfoldable pub run : Prog S A → Proc S A
  run (done r) s t = record { outcome = r; globals = s; trace = t }
  run (step effect rest) s t = run (rest s t) (effect s t).0 (effect s t).1

module _ {S A B : Type 0} where
  infixl 10 ◌>>=◌ ◌>>◌
  unfoldable pub ◌>>=◌ : Prog S A → (A → Prog S B) → Prog S B
  ◌>>=◌ (done (ok a)) f = f a
  ◌>>=◌ (done (err e)) f = done (err e)
  ◌>>=◌ (done panic) f = done panic
  ◌>>=◌ (step effect rest) f = step effect (λ s t. rest s t >>= f)

  abbrev pub ◌>>◌ : Prog S A → Prog S B → Prog S B
  m >> n = m >>= λ _. n

  unfoldable pub on_error : Prog S A → (Error → Prog S B) → (A → Prog S B) → Prog S B
  on_error (done (ok a)) f g = g a
  on_error (done (err e)) f g = f e
  on_error (done panic) f g = done panic
  on_error (step effect rest) f g = step effect (λ s t. on_error (rest s t) f g)

module _ {S : Type 0} where
  abbrev pub or_fail : {A : Type 0} → Prog S A → (Error → Error) → Prog S A
  or_fail m f = on_error m (λ e. done (err (f e))) (λ a. done (ok a))

  unfoldable pub for_each : {A : Type 0} → List A → (A → Prog S (Unit {0})) → Prog S (Unit {0})
  for_each [] f = done (ok tt)
  for_each (x ∷ xs) f = f x >> for_each xs f
