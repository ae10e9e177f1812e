-- ===== src/Threads/Pool/Ends.antt =====
-- No interleaving is endless, and none stops before each goroutine has ended.
use mathlib.Core.WellFounded.{Acc}
use checkpoint_operator.Base.{List, [], ◌∷◌, true, All, ◌≡◌, refl, ◌⊎◌, inl, inr}
use checkpoint_operator.Outcome.{Outcome}
use checkpoint_operator.Cluster.{Trace}
use checkpoint_operator.Threads.{Prog, done, step}
use checkpoint_operator.Threads.Pool.{Moves, here, there, has_ended}

-- A step of the second pool leads to the first, whatever the variables and the trace are then.
pub data Turn {S A : Type 0} (after before : List (Prog S A)) : Type 0 where
  turn : {s s' : S} {t t' : Trace} → Moves s t before after s' t' → Turn after before

module _ {S A : Type 0} where
  empty-Turn : (qs : List (Prog S A)) → Turn qs [] → ⊥
  empty-Turn qs (turn m) = elim m [ ]

  unturn :
      {after before : List (Prog S A)}
      → Turn after before
      → (s : S) × (s' : S) × (t : Trace) × (t' : Trace) × Moves s t before after s' t'
  unturn (turn m) = (_, _, _, _, m)

  done-Moves :
      (r : Outcome A) (s : S) (t : Trace) (ps qs : List (Prog S A)) (s' : S) (t' : Trace)
      → Moves s t (done r ∷ ps) qs s' t'
      → (ps' : List (Prog S A)) × (qs ≡ done r ∷ ps') × Moves s t ps ps' s' t'
  done-Moves r s t ps qs s' t' (there {ps' = ps'} m) = (ps', refl, m)

  step-Moves :
      (effect : S → Trace → S × Trace) (rest : S → Trace → Prog S A) (s : S) (t : Trace)
      (ps qs : List (Prog S A)) (s' : S) (t' : Trace)
      → Moves s t (step effect rest ∷ ps) qs s' t'
      → (qs ≡ rest s t ∷ ps)
        ⊎ ((ps' : List (Prog S A)) × (qs ≡ step effect rest ∷ ps') × Moves s t ps ps' s' t')
  step-Moves effect rest s t ps qs s' t' here = inl refl
  step-Moves effect rest s t ps qs s' t' (there {ps' = ps'} m) = inr (ps', refl, m)

  -- One more goroutine makes no interleaving endless.
  add : (p : Prog S A) (ps : List (Prog S A)) → Acc Turn ps → Acc Turn (p ∷ ps)
  add (done r) ps (Acc.intro _ smaller) = Acc.intro (done r ∷ ps) (λ qs after.
      let (s, s', t, t', m) = unturn after in
      let (ps', e, m') = done-Moves r s t ps qs s' t' m in
      rw e (add (done r) ps' (smaller ps' (turn m'))))
  add (step effect rest) ps (Acc.intro _ smaller) = Acc.intro (step effect rest ∷ ps) (λ qs after.
      let (s, s', t, t', m) = unturn after in
      elim (step-Moves effect rest s t ps qs s' t' m) [
        | inl e ↦ rw e (add (rest s t) ps (Acc.intro ps smaller))
        | inr (ps', e, m') ↦ rw e (add (step effect rest) ps' (smaller ps' (turn m')))
      ])

  pub Acc-Turn : (ps : List (Prog S A)) → Acc Turn ps
  Acc-Turn [] = Acc.intro [] (λ qs after. absurd (empty-Turn qs after))
  Acc-Turn (p ∷ ps) = add p ps (Acc-Turn ps)

  -- A goroutine that has not ended can make a step.
  pub steps_or_ends :
      (ps : List (Prog S A)) (s : S) (t : Trace)
      → All (λ p. has_ended p ≡ true) ps
        ⊎ ((ps' : List (Prog S A)) × (s' : S) × (t' : Trace) × Moves s t ps ps' s' t')
  steps_or_ends [] s t = inl tt
  steps_or_ends (step effect rest ∷ ps) s t = inr (_, _, _, here)
  steps_or_ends (done r ∷ ps) s t = elim (steps_or_ends ps s t) [
    | inl ended ↦ inl (refl, ended)
    | inr (_, _, _, m) ↦ inr (_, _, _, there m)
  ]
