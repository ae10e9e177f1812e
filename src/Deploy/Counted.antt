-- ===== src/Deploy/Counted.antt =====
-- What the operator takes to be left of a node.
use checkpoint_operator.Base.{Bytes, ◌≡◌, sym, ap}
use checkpoint_operator.Base.Int.{sub_ℕ}
use checkpoint_operator.Outcome.{ok}
use checkpoint_operator.Cluster.{Env, Resources, Trace}
use checkpoint_operator.Proc.{call, or_fail, return}
use checkpoint_operator.Proc.Inversion.{bind-ok, or_fail-ok}
use checkpoint_operator.Util.Clientset.{create_client_set}
use checkpoint_operator.Deploy.{Remaining, count_remaining}

-- It is what the node can allocate, less what it was measured to use, each as asked for once.
pub record IsLeft (env : Env) (node : Bytes) (left : Remaining) : Type 0 where
  pub capacity : Resources
  pub usage : Resources
  pub before_capacity : Trace
  pub before_usage : Trace
  pub allocatable : env.allocatable before_capacity node ≡ ok capacity
  pub used : env.node_usage before_usage node ≡ ok usage
  pub cpu : left.cpu ≡ sub_ℕ capacity.cpu_milli usage.cpu_milli
  pub memory : left.memory ≡ sub_ℕ capacity.memory usage.memory

ok-injective : {A : Type 0} (a b : A) → ok a ≡ ok b → a ≡ b
ok-injective a b e = cc

-- The counting of a node gives what is left of it.
pub count_remaining-IsLeft :
    (env : Env) {S : Type 0} (node : Bytes) (s : S) (t : Trace) (left : Remaining)
    → (count_remaining env node s t).outcome ≡ ok left
    → IsLeft env node left
unfolding count_remaining call return
count_remaining-IsLeft env node s t left h =
    let (_, _, h₁) = bind-ok (or_fail (create_client_set env) _) _ s t h in
    let (capacity, allocatable, h₂) = bind-ok (or_fail _ _) _ _ _ h₁ in
    let (_, _, h₃) = bind-ok (or_fail _ _) _ _ _ h₂ in
    let (_, _, h₄) = bind-ok (or_fail _ _) _ _ _ h₃ in
    let (usage, used, h₅) = bind-ok (or_fail _ _) _ _ _ h₄ in
    let same = ok-injective _ left h₅ in
    record {
      capacity = capacity;
      usage = usage;
      before_capacity = _;
      before_usage = _;
      allocatable = or_fail-ok _ _ _ _ allocatable;
      used = or_fail-ok _ _ _ _ used;
      cpu = ap (λ left. left.cpu) (sym same);
      memory = ap (λ left. left.memory) (sym same);
    }
