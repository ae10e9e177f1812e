-- ===== src/Proc.antt =====
-- Go code as a state-passing function: it takes the package's variables and the calls made so far,
-- and gives back its outcome with both as they are then. What was changed or called before an error
-- stays.
pub mod Keeps
pub mod Inversion
pub mod Works
pub mod Runs
pub mod Respects
use checkpoint_operator.Base.{List, [], ◌∷◌, Bool, if◌then◌else◌}
use checkpoint_operator.Outcome.{Error, Outcome, ok, err, panic}
use checkpoint_operator.Cluster.{Call, Trace}

pub record Run {ℓ} (S A : Type ℓ) : Type ℓ where
  pub outcome : Outcome A
  pub globals : S
  pub trace : Trace

abbrev pub Proc {ℓ} : Type ℓ → Type ℓ → Type ℓ
Proc S A = S → Trace → Run S A

module _ {ℓ} {S A : Type ℓ} where
  unfoldable pub give : Outcome A → Proc S A
  give r s t = record { outcome = r; globals = s; trace = t }

  unfoldable pub return : A → Proc S A
  unfolding give
  return a = give (ok a)

  unfoldable pub fail : Error → Proc S A
  unfolding give
  fail e = give (err e)

  -- A call to the outside is recorded; the answer may depend on the calls before it.
  unfoldable pub call : Call → (Trace → Outcome A) → Proc S A
  call c reply s t = record { outcome = reply t; globals = s; trace = c ∷ t }

  unfoldable pub gets : (S → A) → Proc S A
  gets f s t = record { outcome = ok (f s); globals = s; trace = t }

  -- A value that the outside decides with no call, such as the time.
  unfoldable pub observe : (Trace → Outcome A) → Proc S A
  observe f s t = record { outcome = f t; globals = s; trace = t }

module _ {ℓ} {S A B : Type ℓ} where
  abbrev pub continue : Outcome A → (A → Proc S B) → Proc S B
  continue (ok a) f s t = f a s t
  continue (err e) f s t = record { outcome = err e; globals = s; trace = t }
  continue panic f s t = record { outcome = panic; globals = s; trace = t }

  -- `a, err := m; if err != nil { return err }`
  infixl 10 ◌>>=◌ ◌>>◌
  unfoldable pub ◌>>=◌ : Proc S A → (A → Proc S B) → Proc S B
  unfolding give return fail call gets observe
  ◌>>=◌ m f s t = let r = m s t in continue r.outcome f r.globals r.trace

  abbrev pub ◌>>◌ : Proc S A → Proc S B → Proc S B
  m >> n = m >>= λ _. n

  -- `a, err := m` where both ways go on: `if err != nil { f } else { g }`
  abbrev pub branch : Outcome A → (Error → Proc S B) → (A → Proc S B) → Proc S B
  branch (ok a) f g s t = g a s t
  branch (err e) f g s t = f e s t
  branch panic f g s t = record { outcome = panic; globals = s; trace = t }

  unfoldable pub on_error : Proc S A → (Error → Proc S B) → (A → Proc S B) → Proc S B
  unfolding give return fail call gets observe
  on_error m f g s t = let r = m s t in branch r.outcome f g r.globals r.trace

module _ {S : Type 0} where
  unfoldable pub modify : (S → S) → Proc S (Unit {0})
  modify f s t = record { outcome = ok tt; globals = f s; trace = t }

  -- `for _, x := range xs { … }`, where an error of the body returns at once
  unfoldable pub for_each : {A : Type 0} → List A → (A → Proc S (Unit {0})) → Proc S (Unit {0})
  unfolding ◌>>=◌
  for_each [] f = return tt
  for_each (x ∷ xs) f = f x >>= λ _. for_each xs f

  -- `if b { … }`
  abbrev pub when : Bool → Proc S (Unit {0}) → Proc S (Unit {0})
  when b m = if b then m else return tt

  -- `if b { return e }`
  abbrev pub refuse : Bool → Error → Proc S (Unit {0})
  refuse b e = if b then fail e else return tt

  -- `m; if err != nil { return e }`, where `e` is made anew
  abbrev pub or_fail : {A : Type 0} → Proc S A → (Error → Error) → Proc S A
  or_fail m f = on_error m (λ e. fail (f e)) return

  -- `a, err := m`, with `err` looked at later
  abbrev pub attempt : {A : Type 0} → Proc S A → Proc S (Outcome A)
  attempt m = on_error m (λ e. return (err e)) (λ a. return (ok a))

  -- a run-time panic
  abbrev pub panics : {A : Type 0} → Proc S A
  panics = give panic
