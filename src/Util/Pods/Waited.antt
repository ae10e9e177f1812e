-- ===== src/Util/Pods/Waited.antt =====
-- What CheckPodStatus has seen when it succeeds.
use checkpoint_operator.Base.{ℕ, zero, suc, ◌∷◌, Bytes, true, ◌=s◌, ◌≡◌, arith}
use checkpoint_operator.Outcome.{ok}
use checkpoint_operator.Cluster.{Env, Trace, Pod, get_pod}
use checkpoint_operator.Proc.{◌>>=◌, on_error}
use checkpoint_operator.Util.Pods.{wait_for, default}

-- The newest call has found the pod in the state.
abbrev SeenIn : Env → Bytes → Bytes → Trace → Type 0
SeenIn env name state (get_pod namespace name' ∷ t) =
    (namespace ≡ default)
    × (name' ≡ name)
    × ((p : Pod) × (env.get_pod t default name ≡ ok p) × (p.phase =s state ≡ true))
SeenIn env name state _ = ⊥

-- If the wait succeeds, its last call has found the pod in the state that is waited for.
wait_for_lem :
    (env : Env) {S : Type 0} (name state : Bytes) (rounds : ℕ) (s : S) (t : Trace)
    → (wait_for env name state rounds s t).outcome ≡ ok tt
    → SeenIn env name state (wait_for env name state rounds s t).trace
unfolding wait_for ◌>>=◌ on_error
wait_for_lem env name state zero s t h = ground arith
wait_for_lem env name state (suc rounds) s t h =
    ground (arith, wait_for_lem env name state rounds s (get_pod default name ∷ t))
