-- ===== src/Proc/Inversion.antt =====
-- What a successful run says of its parts.
use checkpoint_operator.Base.{arith, Bool, true, false, ◌≡◌, refl, ◌⊎◌, inl, inr}
use checkpoint_operator.Outcome.{Error, Outcome, Outcome-cases, ok, err, panic}
use checkpoint_operator.Cluster.{Trace}
use checkpoint_operator.Proc.{Proc, or_fail, when, continue, branch, ◌>>=◌, on_error}

module _ {ℓ} {S A B : Type ℓ} where
  continue-ok :
      (r : Outcome A) (f : A → Proc S B) (s : S) (t : Trace) {b : B}
      → (continue r f s t).outcome ≡ ok b
      → (a : A) × (r ≡ ok a) × ((f a s t).outcome ≡ ok b)
  continue-ok (ok a) f s t h = (a, refl, h)
  continue-ok (err e) f s t h = cc
  continue-ok panic f s t h = cc

  -- A block succeeds only if its first step does, and the rest from where that step ended.
  pub bind-ok :
      (m : Proc S A) (f : A → Proc S B) (s : S) (t : Trace) {b : B}
      → ((m >>= f) s t).outcome ≡ ok b
      → (a : A) × ((m s t).outcome ≡ ok a) × ((f a (m s t).globals (m s t).trace).outcome ≡ ok b)
  unfolding ◌>>=◌
  bind-ok m f s t h = continue-ok (m s t).outcome f (m s t).globals (m s t).trace h

  branch-ok :
      (r : Outcome A) (f : Error → Proc S B) (g : A → Proc S B) (s : S) (t : Trace) {b : B}
      → (branch r f g s t).outcome ≡ ok b
      → ((a : A) × (r ≡ ok a) × ((g a s t).outcome ≡ ok b))
        ⊎ ((e : Error) × (r ≡ err e) × ((f e s t).outcome ≡ ok b))
  branch-ok (ok a) f g s t h = inl (a, refl, h)
  branch-ok (err e) f g s t h = inr (e, refl, h)
  branch-ok panic f g s t h = cc

  pub on_error-ok :
      (m : Proc S A) (f : Error → Proc S B) (g : A → Proc S B) (s : S) (t : Trace) {b : B}
      → (on_error m f g s t).outcome ≡ ok b
      → ((a : A) × ((m s t).outcome ≡ ok a) × ((g a (m s t).globals (m s t).trace).outcome ≡ ok b))
        ⊎ ((e : Error) × ((m s t).outcome ≡ err e)
            × ((f e (m s t).globals (m s t).trace).outcome ≡ ok b))
  unfolding on_error
  on_error-ok m f g s t h = branch-ok (m s t).outcome f g (m s t).globals (m s t).trace h

  -- The other way round: a block goes on from where a successful step ended.
  pub bind_from :
      (m : Proc S A) (f : A → Proc S B) (s : S) (t : Trace) (a : A)
      → (m s t).outcome ≡ ok a
      → (m >>= f) s t ≡ f a (m s t).globals (m s t).trace
  unfolding ◌>>=◌
  bind_from m f s t a h = rw (h, continue) refl

pub when-ok :
    {S : Type 0} (b : Bool) (m : Proc S (Unit {0})) (s : S) (t : Trace)
    → (when b m s t).outcome ≡ ok tt
    → b ≡ true
    → (m s t).outcome ≡ ok tt
when-ok true m s t h e = h
when-ok false m s t h e = cc

-- Making an error anew changes neither the variables nor the calls.
pub or_fail_trace :
    {S A : Type 0} (m : Proc S A) (f : Error → Error) (s : S) (t : Trace)
    → (or_fail m f s t).trace ≡ (m s t).trace
unfolding on_error
or_fail_trace m f s t = elim (Outcome-cases (m s t).outcome) [
  | inl (a, e) ↦ rw (e, branch) refl
  | inr (inl (x, e)) ↦ rw (e, branch) refl
  | inr (inr e) ↦ rw (e, branch) refl
]

pub or_fail-ok :
    {S A : Type 0} (m : Proc S A) (f : Error → Error) (s : S) (t : Trace) {a : A}
    → (or_fail m f s t).outcome ≡ ok a
    → (m s t).outcome ≡ ok a
unfolding on_error
or_fail-ok m f s t h = ground arith
