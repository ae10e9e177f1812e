-- ===== src/Proc/Works.antt =====
-- Runs that succeed from given variables, whatever was called before, with a value that satisfies
-- `Q`, and leave the variables as they are.
use checkpoint_operator.Base.{List, [], ◌∷◌, Bool, true, false, ◌≡◌, refl, All}
use checkpoint_operator.Outcome.{Error, Outcome, ok}
use checkpoint_operator.Cluster.{Call, Trace}
use checkpoint_operator.Proc.{Proc, return, call, when, for_each, ◌>>=◌, on_error, branch}
use checkpoint_operator.Proc.Inversion.{bind_from}

pub record Works {S A : Type 0} (s₀ : S) (Q : A → Type 0) (m : Proc S A) : Type 0 where
  pub at : (t : Trace) → (a : A) × ((m s₀ t).outcome ≡ ok a) × Q a × ((m s₀ t).globals ≡ s₀)

-- No condition on the value.
abbrev pub Done : Unit {0} → Type 0
Done _ = Unit {0}

branch_ok :
    {S A B : Type 0} (r : Outcome A) (f : Error → Proc S B) (g : A → Proc S B) (s : S) (t : Trace)
    (a : A)
    → r ≡ ok a
    → branch r f g s t ≡ g a s t
branch_ok r f g s t a e = rw (e, branch) refl

module _ {S A B : Type 0} {s₀ : S} {Q : A → Type 0} {R : B → Type 0} where
  pub Works-bind :
      (m : Proc S A) (f : A → Proc S B)
      → Works s₀ Q m
      → ((a : A) → Q a → Works s₀ R (f a))
      → Works s₀ R (m >>= f)
  Works-bind m f wm wf = record {
    at = λ t.
        let (a, e, q, g) = wm.at t in
        let (b, e', q', g') = (wf a q).at (m s₀ t).trace in
        (b, rw (bind_from m f s₀ t a e, g) e', q', rw (bind_from m f s₀ t a e, g) g');
  }

  pub Works-on_error :
      (m : Proc S A) (f : Error → Proc S B) (g : A → Proc S B)
      → Works s₀ Q m
      → ((a : A) → Q a → Works s₀ R (g a))
      → Works s₀ R (on_error m f g)
  unfolding on_error
  Works-on_error m f g wm wg = record {
    at = λ t.
        let (a, e, q, same) = wm.at t in
        let (b, e', q', same') = (wg a q).at (m s₀ t).trace in
        let step = branch_ok (m s₀ t).outcome f g (m s₀ t).globals (m s₀ t).trace a e in
        (b, rw (step, same) e', q', rw (step, same) same');
  }

module _ {S : Type 0} {s₀ : S} where
  pub Works-return : {A : Type 0} {Q : A → Type 0} (a : A) → Q a → Works s₀ Q (return a)
  unfolding return
  Works-return a q = record { at = λ t. (a, refl, q, refl) }

  pub Works-call :
      {A : Type 0} {Q : A → Type 0} (c : Call) (reply : Trace → Outcome A)
      → ((t : Trace) → (a : A) × (reply t ≡ ok a) × Q a)
      → Works s₀ Q (call c reply)
  unfolding call
  Works-call c reply h = record { at = λ t. ((h t).0, (h t).1, (h t).2, refl) }

  pub Works-when :
      (b : Bool) (m : Proc S (Unit {0})) → (b ≡ true → Works s₀ Done m) → Works s₀ Done (when b m)
  Works-when true m k = k refl
  Works-when false m k = Works-return tt tt

  pub Works-for_each :
      {A : Type 0} (xs : List A) (f : A → Proc S (Unit {0}))
      → All (λ x. Works s₀ Done (f x)) xs
      → Works s₀ Done (for_each xs f)
  unfolding for_each
  Works-for_each [] f ws = Works-return tt tt
  Works-for_each (x ∷ xs) f ws = Works-bind (f x) _ ws.0 (λ _ _. Works-for_each xs f ws.1)
