-- ===== src/Outcome.antt =====
-- What a Go call comes back with: a value, a non-nil `error`, or a run-time panic.
use checkpoint_operator.Base.{String, List, Bool, true, false, Bytes, ◌⊎◌, inl, inr, ◌≡◌, refl}

-- An error is told apart by the call of `fmt.Errorf` that made it, or by its text if a client
-- library returned it.
pub data Error : Type 0 where
  -- an error of a library, with the text of its `Error()`
  api : Bytes → Error
  -- `ctx.Err()` of a context whose time is over
  deadline_exceeded : Error
  -- fmt.Errorf(format, args...)
  errorf : String → List Bytes → Error
  -- fmt.Errorf(format + ": %w", err), or with %v; other arguments are left out
  wrapped : String → Error → Error

pub data Outcome {ℓ} (A : Type ℓ) : Type ℓ where
  ok : A → Outcome A
  err : Error → Outcome A
  panic : Outcome A

abbrev pub IsOk {ℓ} : {A : Type ℓ} → Outcome A → Type 0
IsOk (ok a) = Unit
IsOk (err e) = ⊥
IsOk panic = ⊥

abbrev pub is_ok {ℓ} : {A : Type ℓ} → Outcome A → Bool
is_ok (ok a) = true
is_ok (err e) = false
is_ok panic = false

pub Outcome-cases {ℓ} :
    {A : Type ℓ} (r : Outcome A)
    → ((a : A) × (r ≡ ok a)) ⊎ ((e : Error) × (r ≡ err e)) ⊎ (r ≡ panic)
Outcome-cases (ok a) = inl (a, refl)
Outcome-cases (err e) = inr (inl (e, refl))
Outcome-cases panic = inr (inr refl)
