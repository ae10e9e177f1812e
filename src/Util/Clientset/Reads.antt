-- ===== src/Util/Clientset/Reads.antt =====
-- Making a clientset only reads.
use checkpoint_operator.Base.{◌∷◌, false, ◌≡◌}
use checkpoint_operator.Outcome.{Outcome, ok, err, panic}
use checkpoint_operator.Proc.{Proc, call}
use checkpoint_operator.Cluster.{Env, Call, Trace}
use checkpoint_operator.Cluster.Reads.{is_write, Untouched}
use checkpoint_operator.Proc.Keeps.{Keeps, Keeps-call, keeps_rules}
use checkpoint_operator.Util.Clientset.{create_client_set, through}

pub create_client_set-Untouched :
    {S : Type 0} {s₀ : S} {w : Trace} (env : Env)
    → Keeps (Untouched s₀ w) (create_client_set env {S = S})
unfolding create_client_set
create_client_set-Untouched env = search (keeps_rules, Keeps-call) depth 8

-- What every reading call keeps is kept, too.
module _ {S : Type 0} {P : S → Trace → Type 0}
    (reads : (c : Call) (s : S) (t : Trace) → is_write c ≡ false → P s t → P s (c ∷ t)) where
  pub read-P :
      {A : Type 0} (c : Call) (f : Trace → Outcome A) → is_write c ≡ false → Keeps P (call c f)
  read-P c f e = Keeps-call c f (λ s t h. reads c s t e h)

  pub create_client_set-Keeps : (env : Env) → Keeps P (create_client_set env)
  unfolding create_client_set
  create_client_set-Keeps env = search (keeps_rules, read-P) depth 8

pub through-Keeps :
    {S A : Type 0} {P : S → Trace → Type 0} (c : Outcome (Unit {0})) (m : Proc S A)
    → Keeps P m
    → Keeps P (through c m)
unfolding through
through-Keeps (ok a) m k = k
through-Keeps (err e) m k = search keeps_rules
through-Keeps panic m k = search keeps_rules
