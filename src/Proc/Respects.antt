-- ===== src/Proc/Respects.antt =====
-- Code that cannot tell two states of its variables apart: from related states, with the same calls
-- before, it ends with the same outcome and the same calls, in related states.
use checkpoint_operator.Base.{List, [], ◌∷◌, Bool, true, false, if◌then◌else◌, ◌≡◌, refl}
use checkpoint_operator.Outcome.{Error, Outcome, ok, err, panic}
use checkpoint_operator.Cluster.{Call, Trace}
use checkpoint_operator.Proc.{
  Proc, Run, give, return, fail, call, gets, observe, modify, ◌>>=◌, on_error, for_each, when,
  branch, continue,
}

pub record Alike {S A : Type 0} (R : S → S → Type 0) (r r' : Run S A) : Type 0 where
  pub outcomes : r.outcome ≡ r'.outcome
  pub traces : r.trace ≡ r'.trace
  pub states : R r.globals r'.globals

pub record Respects {S A : Type 0} (R : S → S → Type 0) (m : Proc S A) : Type 0 where
  pub at : (s s' : S) (t : Trace) → R s s' → Alike R (m s t) (m s' t)

module _ {S A : Type 0} {R : S → S → Type 0} where
  pub Respects-give : (r : Outcome A) → Respects R (give r)
  unfolding give
  Respects-give r = record {
    at = λ s s' t h. record { outcomes = refl; traces = refl; states = h };
  }

  pub Respects-return : (a : A) → Respects R (return a)
  unfolding return
  Respects-return a = record {
    at = λ s s' t h. record { outcomes = refl; traces = refl; states = h };
  }

  pub Respects-fail : (e : Error) → Respects R (fail {A = A} e)
  unfolding fail
  Respects-fail e = record {
    at = λ s s' t h. record { outcomes = refl; traces = refl; states = h };
  }

  pub Respects-observe : (f : Trace → Outcome A) → Respects R (observe f)
  unfolding observe
  Respects-observe f = record {
    at = λ s s' t h. record { outcomes = refl; traces = refl; states = h };
  }

  pub Respects-call : (c : Call) (f : Trace → Outcome A) → Respects R (call c f)
  unfolding call
  Respects-call c f = record {
    at = λ s s' t h. record { outcomes = refl; traces = refl; states = h };
  }

  pub Respects-gets : (f : S → A) → ((s s' : S) → R s s' → f s ≡ f s') → Respects R (gets f)
  unfolding gets
  Respects-gets f k = record {
    at = λ s s' t h. record { outcomes = rw (k s s' h) refl; traces = refl; states = h };
  }

  pub Respects-if :
      (test : Bool) (first second : Proc S A)
      → (test ≡ true → Respects R first)
      → (test ≡ false → Respects R second)
      → Respects R (if test then first else second)
  Respects-if true first second on_true on_false = on_true refl
  Respects-if false first second on_true on_false = on_false refl

module _ {S A B : Type 0} {R : S → S → Type 0} where
  Respects-continue :
      (r : Outcome A) (f : A → Proc S B) → ((a : A) → Respects R (f a)) → Respects R (continue r f)
  Respects-continue (ok a) f k = k a
  Respects-continue (err e) f k = record {
    at = λ s s' t h. record { outcomes = refl; traces = refl; states = h };
  }
  Respects-continue panic f k = record {
    at = λ s s' t h. record { outcomes = refl; traces = refl; states = h };
  }

  -- The second run goes on from the same outcome and the same calls.
  pub Respects-bind :
      (m : Proc S A) (f : A → Proc S B)
      → Respects R m
      → ((a : A) → Respects R (f a))
      → Respects R (m >>= f)
  unfolding ◌>>=◌
  Respects-bind m f km kf = record {
    at = λ s s' t h.
        let first = km.at s s' t h in
        rw⁻¹ (first.outcomes, first.traces)
          ((Respects-continue (m s t).outcome f kf).at (m s t).globals (m s' t).globals
            (m s t).trace first.states);
  }

  Respects-branch :
      (r : Outcome A) (f : Error → Proc S B) (g : A → Proc S B)
      → ((e : Error) → Respects R (f e))
      → ((a : A) → Respects R (g a))
      → Respects R (branch r f g)
  Respects-branch (ok a) f g kf kg = kg a
  Respects-branch (err e) f g kf kg = kf e
  Respects-branch panic f g kf kg = record {
    at = λ s s' t h. record { outcomes = refl; traces = refl; states = h };
  }

  pub Respects-on_error :
      (m : Proc S A) (f : Error → Proc S B) (g : A → Proc S B)
      → Respects R m
      → ((e : Error) → Respects R (f e))
      → ((a : A) → Respects R (g a))
      → Respects R (on_error m f g)
  unfolding on_error
  Respects-on_error m f g km kf kg = record {
    at = λ s s' t h.
        let first = km.at s s' t h in
        rw⁻¹ (first.outcomes, first.traces)
          ((Respects-branch (m s t).outcome f g kf kg).at (m s t).globals (m s' t).globals
            (m s t).trace first.states);
  }

module _ {S : Type 0} {R : S → S → Type 0} where
  pub Respects-modify : (f : S → S) → ((s s' : S) → R s s' → R (f s) (f s')) → Respects R (modify f)
  unfolding modify
  Respects-modify f k = record {
    at = λ s s' t h. record { outcomes = refl; traces = refl; states = k s s' h };
  }

  pub Respects-when : (b : Bool) (m : Proc S (Unit {0})) → Respects R m → Respects R (when b m)
  Respects-when true m k = k
  Respects-when false m k = Respects-return tt

  pub Respects-for_each :
      {A : Type 0} (xs : List A) (f : A → Proc S (Unit {0}))
      → ((a : A) → Respects R (f a))
      → Respects R (for_each xs f)
  unfolding for_each
  Respects-for_each [] f k = Respects-return tt
  Respects-for_each (x ∷ xs) f k =
      Respects-bind (f x) (λ _. for_each xs f) (k x) (λ _. Respects-for_each xs f k)

pub ruleset respects_rules = (
  Respects-give, Respects-return, Respects-fail, Respects-observe, Respects-call, Respects-if,
  Respects-bind, Respects-on_error, Respects-for_each,
)
