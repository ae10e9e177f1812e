-- ===== src/Threads/Pool.antt =====
-- The interleavings of some goroutines.
pub mod Ends
pub mod Schedule
use checkpoint_operator.Base.{List, ◌∷◌, Bool, true, false, All, ◌≡◌}
use checkpoint_operator.Outcome.{Outcome, ok, err, panic}
use checkpoint_operator.Cluster.{Trace}
use checkpoint_operator.Threads.{Prog, done, step}

-- One goroutine makes a step; `s` and `t` are the variables and the trace before it.
pub data Moves {S A : Type 0} (s : S) (t : Trace)
    : List (Prog S A) → List (Prog S A) → S → Trace → Type 0 where
  here :
      {effect : S → Trace → S × Trace} {rest : S → Trace → Prog S A} {ps : List (Prog S A)}
      → Moves s t (step effect rest ∷ ps) (rest s t ∷ ps) (effect s t).0 (effect s t).1
  there :
      {p : Prog S A} {ps ps' : List (Prog S A)} {s' : S} {t' : Trace}
      → Moves s t ps ps' s' t'
      → Moves s t (p ∷ ps) (p ∷ ps') s' t'

abbrev pub has_panicked : {S A : Type 0} → Prog S A → Bool
has_panicked (done panic) = true
has_panicked _ = false

abbrev pub has_ended : {S A : Type 0} → Prog S A → Bool
has_ended (done r) = true
has_ended (step effect rest) = false

-- A panic in one goroutine ends the process, and with it all the others.
abbrev pub Alive : {S A : Type 0} → List (Prog S A) → Type 0
Alive ps = All (λ p. has_panicked p ≡ false) ps

-- What some goroutines, started together, may have come to.
pub data Reach {S A : Type 0} (ps₀ : List (Prog S A)) (s₀ : S) (t₀ : Trace)
    : List (Prog S A) → S → Trace → Type 0 where
  start : Reach ps₀ s₀ t₀ ps₀ s₀ t₀
  later :
      {ps ps' : List (Prog S A)} {s s' : S} {t t' : Trace}
      → Reach ps₀ s₀ t₀ ps s t
      → Alive ps
      → Moves s t ps ps' s' t'
      → Reach ps₀ s₀ t₀ ps' s' t'
