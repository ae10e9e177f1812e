-- ===== src/Cluster/Reads.antt =====
-- Which calls change the outside, and runs that make none of those.
use checkpoint_operator.Base.{[], ◌∷◌, Bool, true, false, if◌then◌else◌, ◌≡◌}
use checkpoint_operator.Cluster.{
  Call, Trace, create_pod, delete_pod, create_namespace, create_job, delete_job, apply_migration,
  post, commit, write,
}

abbrev pub is_write : Call → Bool
is_write (create_pod namespace pod) = true
is_write (delete_pod namespace name) = true
is_write (create_namespace name) = true
is_write (create_job namespace job) = true
is_write (delete_job namespace name) = true
is_write (apply_migration spec) = true
is_write (post url) = true
is_write (commit m) = true
is_write (write topic m) = true
is_write _ = false

-- The calls of a trace that change the outside.
abbrev pub writes : Trace → Trace
writes [] = []
writes (c ∷ t) = if is_write c then c ∷ writes t else writes t

-- The variables are `s₀` and the calls that change the outside are `w`.
abbrev pub Untouched {ℓ} : {S : Type ℓ} → S → Trace → S → Trace → Type ℓ
Untouched s₀ w s t = (s ≡ s₀) × (writes t ≡ w)
