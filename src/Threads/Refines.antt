-- ===== src/Threads/Refines.antt =====
-- A tree of steps that runs alone does what a function of the sequential model does.
use checkpoint_operator.Base.{List, [], ◌∷◌, Bool, true, false, if◌then◌else◌, ◌≡◌, refl, ◌∙◌}
use checkpoint_operator.Outcome.{Error, Outcome, ok, err, panic}
use checkpoint_operator.Cluster.{Trace}
use checkpoint_operator.Proc
use checkpoint_operator.Proc.{Proc, Run}
use checkpoint_operator.Threads.{Prog, done, step, atomic, run, ◌>>=◌, on_error, for_each}

pub record Refines {S A : Type 0} (p : Prog S A) (m : Proc S A) : Type 0 where
  pub at : (s : S) (t : Trace) → run p s t ≡ m s t

module _ {S A : Type 0} where
  pub Refines-atomic : (m : Proc S A) → Refines (atomic m) m
  unfolding atomic run
  Refines-atomic m = record { at = λ s t. refl }

  pub Refines-give : (r : Outcome A) → Refines {S = S} (done r) (Proc.give r)
  unfolding run Proc.give
  Refines-give r = record { at = λ s t. refl }

  pub Refines-return : (a : A) → Refines {S = S} (done (ok a)) (Proc.return a)
  unfolding run Proc.return
  Refines-return a = record { at = λ s t. refl }

  pub Refines-fail : (e : Error) → Refines {S = S} {A = A} (done (err e)) (Proc.fail e)
  unfolding run Proc.fail
  Refines-fail e = record { at = λ s t. refl }

  pub Refines-panics : Refines {S = S} {A = A} (done panic) Proc.panics
  unfolding run Proc.give
  Refines-panics = record { at = λ s t. refl }

  pub Refines-if :
      (test : Bool) (p q : Prog S A) (m n : Proc S A)
      → Refines p m
      → Refines q n
      → Refines (if test then p else q) (if test then m else n)
  Refines-if true p q m n h k = h
  Refines-if false p q m n h k = k

module _ {S A B : Type 0} where
  run->>= :
      (p : Prog S A) (f : A → Prog S B) (s : S) (t : Trace)
      → run (p >>= f) s t ≡ Proc.◌>>=◌ (run p) (λ a. run (f a)) s t
  unfolding run ◌>>=◌ Proc.◌>>=◌
  run->>= (done (ok a)) f s t = refl
  run->>= (done (err e)) f s t = refl
  run->>= (done panic) f s t = refl
  run->>= (step effect rest) f s t = run->>= (rest s t) f (effect s t).0 (effect s t).1

  run-on_error :
      (p : Prog S A) (f : Error → Prog S B) (g : A → Prog S B) (s : S) (t : Trace)
      → run (on_error p f g) s t ≡ Proc.on_error (run p) (λ e. run (f e)) (λ a. run (g a)) s t
  unfolding run on_error Proc.on_error
  run-on_error (done (ok a)) f g s t = refl
  run-on_error (done (err e)) f g s t = refl
  run-on_error (done panic) f g s t = refl
  run-on_error (step effect rest) f g s t =
      run-on_error (rest s t) f g (effect s t).0 (effect s t).1

  continue_eq :
      (r : Outcome A) (f g : A → Proc S B)
      → ((a : A) (s : S) (t : Trace) → f a s t ≡ g a s t)
      → (s : S) (t : Trace) → Proc.continue r f s t ≡ Proc.continue r g s t
  continue_eq (ok a) f g h s t = h a s t
  continue_eq (err e) f g h s t = refl
  continue_eq panic f g h s t = refl

  branch_eq :
      (r : Outcome A) (f f' : Error → Proc S B) (g g' : A → Proc S B)
      → ((e : Error) (s : S) (t : Trace) → f e s t ≡ f' e s t)
      → ((a : A) (s : S) (t : Trace) → g a s t ≡ g' a s t)
      → (s : S) (t : Trace) → Proc.branch r f g s t ≡ Proc.branch r f' g' s t
  branch_eq (ok a) f f' g g' h k s t = k a s t
  branch_eq (err e) f f' g g' h k s t = h e s t
  branch_eq panic f f' g g' h k s t = refl

  pub Refines-bind :
      (p : Prog S A) (m : Proc S A) (f : A → Prog S B) (g : A → Proc S B)
      → Refines p m
      → ((a : A) → Refines (f a) (g a))
      → Refines (p >>= f) (Proc.◌>>=◌ m g)
  unfolding Proc.◌>>=◌
  Refines-bind p m f g h k = record {
    at = λ s t.
        run->>= p f s t
        ∙ rw (h.at s t) (
            continue_eq (m s t).outcome (λ a. run (f a)) g (λ a. (k a).at) (m s t).globals
              (m s t).trace);
  }

  pub Refines-on_error :
      (p : Prog S A) (m : Proc S A) (f : Error → Prog S B) (f' : Error → Proc S B)
      (g : A → Prog S B) (g' : A → Proc S B)
      → Refines p m
      → ((e : Error) → Refines (f e) (f' e))
      → ((a : A) → Refines (g a) (g' a))
      → Refines (on_error p f g) (Proc.on_error m f' g')
  unfolding Proc.on_error
  Refines-on_error p m f f' g g' h k l = record {
    at = λ s t.
        run-on_error p f g s t
        ∙ rw (h.at s t) (
            branch_eq (m s t).outcome (λ e. run (f e)) f' (λ a. run (g a)) g' (λ e. (k e).at)
              (λ a. (l a).at) (m s t).globals (m s t).trace);
  }

pub Refines-for_each :
    {S A : Type 0} (xs : List A) (f : A → Prog S (Unit {0})) (g : A → Proc S (Unit {0}))
    → ((a : A) → Refines (f a) (g a))
    → Refines (for_each xs f) (Proc.for_each xs g)
unfolding for_each Proc.for_each
Refines-for_each [] f g h = Refines-return tt
Refines-for_each (x ∷ xs) f g h =
    Refines-bind (f x) (g x) _ _ (h x) (λ _. Refines-for_each xs f g h)

pub ruleset refines_rules = (
  Refines-atomic, Refines-give, Refines-return, Refines-fail, Refines-panics, Refines-if,
  Refines-bind, Refines-on_error, Refines-for_each,
)
