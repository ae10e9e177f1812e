-- ===== src/Monitor/Least.antt =====
-- Which node the pods are moved to.
use checkpoint_operator.Base.{
  List, [], ◌∷◌, Bool, true, false, Bytes, ◌≡◌, refl, ◌⊎◌, inl, inr, arith, All, Any, here, there,
  if◌then◌else◌, Bool-cases,
}
use checkpoint_operator.Monitor.{pick_least}

-- What is relied on of `<` on float64, NaN included.
pub record IsStrict {Rate : Type 0} (less : Rate → Rate → Bool) : Type 0 where
  pub irreflexive : (a : Rate) → less a a ≡ false
  pub transitive : (a b c : Rate) → less a b ≡ true → less b c ≡ true → less a c ≡ true

-- No node has a lower rate than the one found. Either a node has that rate, and it is below the one
-- to beat; or no rate is below that, and the node is the one kept before.
pub record IsLeast {Rate : Type 0} (less : Rate → Rate → Bool) (rate : Rate) (node : Bytes)
    (rates : List (Bytes × Rate)) (result : Rate × Bytes) : Type 0 where
  pub lowest : All (λ e. less e.1 result.0 ≡ false) rates
  pub origin :
      (Any (λ e. e ≡ (result.1, result.0)) rates × (less result.0 rate ≡ true))
      ⊎ ((result.1 ≡ node) × (result.0 ≡ rate) × All (λ e. less e.1 rate ≡ false) rates)

module _ {Rate : Type 0} (less : Rate → Rate → Bool) (strict : IsStrict less) where
  -- The rate that is found is that to beat, or lower.
  pick_least_le :
      (rate : Rate) (node : Bytes) (rates : List (Bytes × Rate)) (a : Rate)
      → less a rate ≡ false
      → less a (pick_least less rate node rates).0 ≡ false
  unfolding pick_least
  pick_least_le rate node [] a h = h
  pick_least_le rate node ((name, r) ∷ rates) a h = ground (
    arith,
    pick_least_le rate node rates a,
    pick_least_le r name rates a,
    strict.transitive a r rate,
  )

  pick_least_lower :
      (rate r : Rate) (node name : Bytes) (rates : List (Bytes × Rate))
      → less r rate ≡ true
      → pick_least less rate node ((name, r) ∷ rates) ≡ pick_least less r name rates
  unfolding pick_least
  pick_least_lower rate r node name rates e = rw (e, if◌then◌else◌) refl

  pick_least_other :
      (rate r : Rate) (node name : Bytes) (rates : List (Bytes × Rate))
      → less r rate ≡ false
      → pick_least less rate node ((name, r) ∷ rates) ≡ pick_least less rate node rates
  unfolding pick_least
  pick_least_other rate r node name rates e = rw (e, if◌then◌else◌) refl

  -- Where `<` is irreflexive and transitive, the loop for the least loaded node finds a node of the
  -- lowest rate of all, if a rate is below the one to beat; if none is, the node stays the one that
  -- was kept from an earlier run.
  pub pick_least-IsLeast :
      (rate : Rate) (node : Bytes) (rates : List (Bytes × Rate))
      → IsLeast less rate node rates (pick_least less rate node rates)
  unfolding pick_least
  pick_least-IsLeast rate node [] = record { lowest = tt; origin = inr (refl, refl, tt) }
  pick_least-IsLeast rate node ((name, r) ∷ rates) = elim (Bool-cases (less r rate)) [
    | inl e ↦
        let rest = pick_least-IsLeast r name rates in
        let beaten = pick_least_le r name rates r (strict.irreflexive r) in
        rw (pick_least_lower rate r node name rates e) (record {
          lowest = (beaten, rest.lowest);
          origin = elim rest.origin [
            | inl (m, lower) ↦ inl (there m, strict.transitive _ r rate lower e)
            | inr (same, kept, _) ↦ inl (here (cc (same, kept)), rw kept e)
          ];
        })
    | inr e ↦
        let rest = pick_least-IsLeast rate node rates in
        let beaten = pick_least_le rate node rates r e in
        rw (pick_least_other rate r node name rates e) (record {
          lowest = (beaten, rest.lowest);
          origin = elim rest.origin [
            | inl (m, lower) ↦ inl (there m, lower)
            | inr (same, kept, others) ↦ inr (same, kept, (e, others))
          ];
        })
  ]
