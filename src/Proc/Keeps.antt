-- ===== src/Proc/Keeps.antt =====
-- Invariants of Go code: what holds of the variables and the calls before a run holds after it, on
-- success, on an error and on a panic. One rule for each way to build a run.
use checkpoint_operator.Base.{All, List, [], ◌∷◌, Bool, true, false, if◌then◌else◌, ◌≡◌, refl}
use checkpoint_operator.Outcome.{Error, Outcome, ok, err, panic}
use checkpoint_operator.Cluster.{Call, Trace}
use checkpoint_operator.Proc.{
  Proc, give, return, fail, call, gets, observe, modify, ◌>>=◌, on_error, for_each, when, branch,
  continue,
}

pub record Keeps {ℓ} {S A : Type ℓ} (P : S → Trace → Type ℓ) (m : Proc S A) : Type ℓ where
  pub at : (s : S) (t : Trace) → P s t → P (m s t).globals (m s t).trace

module _ {ℓ} {S A : Type ℓ} {P : S → Trace → Type ℓ} where
  pub Keeps-give : (r : Outcome A) → Keeps P (give r)
  unfolding give
  Keeps-give r = record { at = λ s t h. h }

  pub Keeps-return : (a : A) → Keeps P (return a)
  unfolding return
  Keeps-return a = record { at = λ s t h. h }

  pub Keeps-fail : (e : Error) → Keeps P (fail {A = A} e)
  unfolding fail
  Keeps-fail e = record { at = λ s t h. h }

  pub Keeps-observe : (f : Trace → Outcome A) → Keeps P (observe f)
  unfolding observe
  Keeps-observe f = record { at = λ s t h. h }

  pub Keeps-gets : (f : S → A) → Keeps P (gets f)
  unfolding gets
  Keeps-gets f = record { at = λ s t h. h }

  pub Keeps-call :
      (c : Call) (f : Trace → Outcome A)
      → ((s : S) (t : Trace) → P s t → P s (c ∷ t))
      → Keeps P (call c f)
  unfolding call
  Keeps-call c f k = record { at = k }

  pub Keeps-if :
      (test : Bool) (first second : Proc S A)
      → (test ≡ true → Keeps P first)
      → (test ≡ false → Keeps P second)
      → Keeps P (if test then first else second)
  Keeps-if true first second on_true on_false = on_true refl
  Keeps-if false first second on_true on_false = on_false refl

module _ {ℓ} {S A B : Type ℓ} {P : S → Trace → Type ℓ} where
  pub Keeps-continue :
      (r : Outcome A) (f : A → Proc S B) → ((a : A) → Keeps P (f a)) → Keeps P (continue r f)
  Keeps-continue (ok a) f kf = kf a
  Keeps-continue (err e) f kf = record { at = λ s t h. h }
  Keeps-continue panic f kf = record { at = λ s t h. h }

  pub Keeps-bind :
      (m : Proc S A) (f : A → Proc S B) → Keeps P m → ((a : A) → Keeps P (f a)) → Keeps P (m >>= f)
  unfolding ◌>>=◌
  Keeps-bind m f km kf = record {
    at = λ s t h.
        (Keeps-continue (m s t).outcome f kf).at (m s t).globals (m s t).trace (km.at s t h);
  }

  pub Keeps-branch :
      (r : Outcome A) (f : Error → Proc S B) (g : A → Proc S B)
      → ((e : Error) → Keeps P (f e))
      → ((a : A) → Keeps P (g a))
      → Keeps P (branch r f g)
  Keeps-branch (ok a) f g kf kg = kg a
  Keeps-branch (err e) f g kf kg = kf e
  Keeps-branch panic f g kf kg = record { at = λ s t h. h }

  pub Keeps-on_error :
      (m : Proc S A) (f : Error → Proc S B) (g : A → Proc S B)
      → Keeps P m
      → ((e : Error) → Keeps P (f e))
      → ((a : A) → Keeps P (g a))
      → Keeps P (on_error m f g)
  unfolding on_error
  Keeps-on_error m f g km kf kg = record {
    at = λ s t h.
        (Keeps-branch (m s t).outcome f g kf kg).at (m s t).globals (m s t).trace (km.at s t h);
  }

module _ {S : Type 0} {P : S → Trace → Type 0} where
  pub Keeps-modify : (f : S → S) → ((s : S) (t : Trace) → P s t → P (f s) t) → Keeps P (modify f)
  unfolding modify
  Keeps-modify f k = record { at = k }

  pub Keeps-when : (b : Bool) (m : Proc S (Unit {0})) → Keeps P m → Keeps P (when b m)
  Keeps-when true m k = k
  Keeps-when false m k = Keeps-return tt

  pub Keeps-for_each :
      {A : Type 0} (xs : List A) (f : A → Proc S (Unit {0}))
      → ((a : A) → Keeps P (f a))
      → Keeps P (for_each xs f)
  unfolding for_each
  Keeps-for_each [] f kf = Keeps-return tt
  Keeps-for_each (x ∷ xs) f kf =
      Keeps-bind (f x) (λ _. for_each xs f) (kf x) (λ _. Keeps-for_each xs f kf)

module _ {S : Type 0} {P : S → Trace → Type 0} where
  pub Keeps-for_each_member :
      {A : Type 0} (xs : List A) (f : A → Proc S (Unit {0}))
      → All (λ x. Keeps P (f x)) xs
      → Keeps P (for_each xs f)
  unfolding for_each
  Keeps-for_each_member [] f kf = Keeps-return tt
  Keeps-for_each_member (x ∷ xs) f kf =
      Keeps-bind (f x) (λ _. for_each xs f) kf.0 (λ _. Keeps-for_each_member xs f kf.1)

pub ruleset keeps_rules = (
  Keeps-give, Keeps-return, Keeps-fail, Keeps-observe, Keeps-gets, Keeps-if, Keeps-bind,
  Keeps-on_error, Keeps-for_each,
)
