-- ===== src/Daemons/Ends.antt =====
-- Reconcile waits for its goroutines, and they all come to an end, or one of them panics.
use mathlib.Core.WellFounded.{Acc}
use checkpoint_operator.Base.{List, [], ◌∷◌, none, Bool-cases, ◌≡◌, ◌⊎◌, inl, inr}
use checkpoint_operator.Outcome.{ok}
use checkpoint_operator.Cluster.{Env, Pod, Trace, list_pods}
use checkpoint_operator.Util.Globals.{PodsMap}
use checkpoint_operator.RegistryIp.{registry_pods}
use checkpoint_operator.Threads.{Prog}
use checkpoint_operator.Threads.Pool.{Moves, Reach, Alive, has_panicked}
use checkpoint_operator.Threads.Pool.Ends.{Turn, Acc-Turn, steps_or_ends}
use checkpoint_operator.Daemons.{goroutines, Reconciles, waited}

Alive-or_not : {S A : Type 0} (ps : List (Prog S A)) → Alive ps ⊎ ¬ Alive ps
Alive-or_not [] = inl tt
Alive-or_not (p ∷ ps) = elim (Bool-cases (has_panicked p)) [
  | inl e ↦ inr (λ alive. cc (e, alive.0))
  | inr e ↦ elim (Alive-or_not ps) [
    | inl alive ↦ inl (e, alive)
    | inr panicked ↦ inr (λ alive. panicked alive.1)
  ]
]

-- Wherever the goroutines for the listed registry pods have come to, no order of their further steps
-- is endless, and either one of them can make a step, or one of them has panicked, or Reconcile
-- returns and asks for its next run in half a second.
pub reconcile_ends :
    (env : Env) (pods : List Pod) (s : PodsMap) (t : Trace) {ps : List (Prog PodsMap (Unit {0}))}
    {s' : PodsMap} {t' : Trace}
    → env.list_pods t registry_pods ≡ ok pods
    → Reach (goroutines env pods) s (list_pods registry_pods ∷ t) ps s' t'
    → Acc Turn ps
      × (((ps' : List (Prog PodsMap (Unit {0}))) × (s'' : PodsMap) × (t'' : Trace) × Moves s' t' ps
              ps' s'' t'')
          ⊎ ¬ Alive ps
          ⊎ Reconciles env s t (record { after = 500; error = none }) s' t')
reconcile_ends env pods s t {ps} {s'} {t'} listed reach = (
  Acc-Turn ps,
  elim (steps_or_ends ps s' t') [
    | inl ended ↦ elim (Alive-or_not ps) [
      | inl alive ↦ inr (inr (waited pods listed reach ended alive))
      | inr panicked ↦ inr (inl panicked)
    ]
    | inr m ↦ inl m
  ],
)
