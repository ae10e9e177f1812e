-- ===== src/Proc/Runs.antt =====
-- Runs that succeed, with their value and the trace that they leave; the variables stay.
use checkpoint_operator.Base.{List, [], false, ◌∷◌, Bool, true, ◌≡◌, refl}
use checkpoint_operator.Outcome.{Error, Outcome, ok}
use checkpoint_operator.Cluster.{Call, Trace}
use checkpoint_operator.Proc.{
  for_each, Proc, return, give, observe, call, when, or_fail, branch, continue, ◌>>=◌, on_error,
}

abbrev pub Runs : {S A : Type 0} → Proc S A → S → Trace → A → Trace → Type 0
Runs m s t a t' = m s t ≡ record { outcome = ok a; globals = s; trace = t' }

module _ {S A B : Type 0} (m : Proc S A) (s : S) {t t₁ t₂ : Trace} {a : A} {b : B} where
  pub Runs-bind :
      (f : A → Proc S B) → Runs m s t a t₁ → Runs (f a) s t₁ b t₂ → Runs (m >>= f) s t b t₂
  unfolding ◌>>=◌
  Runs-bind f h k = rw (h, continue) k

  pub Runs-on_error :
      (f : Error → Proc S B) (g : A → Proc S B)
      → Runs m s t a t₁
      → Runs (g a) s t₁ b t₂
      → Runs (on_error m f g) s t b t₂
  unfolding on_error
  Runs-on_error f g h k = rw (h, branch) k

module _ {S A : Type 0} (s : S) (t : Trace) where
  pub Runs-return : (a : A) → Runs (return a) s t a t
  unfolding return
  Runs-return a = refl

  pub Runs-give : (r : Outcome A) (a : A) → r ≡ ok a → Runs (give r) s t a t
  unfolding give
  Runs-give r a e = rw e refl

  pub Runs-observe : (f : Trace → Outcome A) (a : A) → f t ≡ ok a → Runs (observe f) s t a t
  unfolding observe
  Runs-observe f a e = rw e refl

  pub Runs-call :
      (c : Call) (reply : Trace → Outcome A) (a : A)
      → reply t ≡ ok a
      → Runs (call c reply) s t a (c ∷ t)
  unfolding call
  Runs-call c reply a e = rw e refl

pub Runs-or_fail :
    {S A : Type 0} (m : Proc S A) (f : Error → Error) (s : S) {t t' : Trace} (a : A)
    → Runs m s t a t'
    → Runs (or_fail m f) s t a t'
Runs-or_fail m f s {t' = t'} a h = Runs-on_error m s _ _ h (Runs-return s t' a)

pub Runs-parts :
    {S A : Type 0} (m : Proc S A) (s : S) (t : Trace) {a : A} {t' : Trace}
    → (m s t).outcome ≡ ok a
    → (m s t).globals ≡ s
    → (m s t).trace ≡ t'
    → Runs m s t a t'
Runs-parts m s t o g e = cc (o, g, e)

-- A loop over one thing, and a condition that holds.
pub Runs-one :
    {S A : Type 0} (xs : List A) (x : A) (f : A → Proc S (Unit {0})) (s : S) (t : Trace)
    {t' : Trace}
    → xs ≡ x ∷ []
    → Runs (f x) s t tt t'
    → Runs (for_each xs f) s t tt t'
unfolding for_each
Runs-one xs x f s t {t'} e run =
    rw e (Runs-bind (f x) s {t = t} (λ _. return tt) run (Runs-return s t' tt))

pub Runs-when :
    {S : Type 0} (b : Bool) (m : Proc S (Unit {0})) (s : S) (t : Trace) {t' : Trace}
    → b ≡ true
    → Runs m s t tt t'
    → Runs (when b m) s t tt t'
Runs-when true m s t e run = run
Runs-when false m s t e run = cc
