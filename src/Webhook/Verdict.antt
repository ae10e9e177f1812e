-- ===== src/Webhook/Verdict.antt =====
-- What an accepted Migration satisfies, and which ones are accepted.
use checkpoint_operator.Base.{
  ◌≡◌, ◌≢◌, refl, Bytes, List, [], ◌∷◌, is_empty, not, true, false, ◌⊎◌, All, arith,
}
use checkpoint_operator.Outcome.{Error, ok}
use checkpoint_operator.Cluster.{Env, Trace, MigrationSpec}
use checkpoint_operator.Cluster.Reads.{writes}
use checkpoint_operator.Proc.{for_each, ◌>>=◌, when}
use checkpoint_operator.Proc.Keeps.{Keeps-when}
use checkpoint_operator.Proc.Inversion.{bind-ok, when-ok}
use checkpoint_operator.Util.Globals.{PodsMap, contains}
use checkpoint_operator.Webhook.{
  client_or_error, not_processed, check_fields, check_targets, check_processed, validate_migration,
  pod_is_processed,
}
use checkpoint_operator.Webhook.Reads.{
  check_fields-Untouched, client_or_error-Untouched, check_targets-Untouched,
  not_processed-Untouched,
}

-- At most one of the three ways to name pods is used, and the three places are named.
pub record IsWellFormed (spec : MigrationSpec) : Type 0 where
  pub pod_or_deployment : (spec.pod_name ≡ []) ⊎ (spec.deployment ≡ [])
  pub pod_or_specify : (spec.pod_name ≡ []) ⊎ (spec.specify ≡ [])
  pub deployment_or_specify : (spec.deployment ≡ []) ⊎ (spec.specify ≡ [])
  pub has_node : spec.destination_node ≢ []
  pub has_destination : spec.destination_namespace ≢ []
  pub has_namespace : spec.namespace ≢ []

-- None of the pods that the spec names is in ProcessPodsMap.
pub record IsFree (spec : MigrationSpec) (s : PodsMap) : Type 0 where
  pub pod : spec.pod_name ≢ [] → contains spec.pod_name s ≡ false
  pub listed : All (λ name. contains name s ≡ false) spec.specify

check_fields-ok :
    (env : Env) (spec : MigrationSpec) (s : PodsMap) (t : Trace)
    → (check_fields env spec s t).outcome ≡ ok tt
    → IsWellFormed spec
unfolding check_fields ◌>>=◌
check_fields-ok env spec s t h = ground arith

pub check_fields_total :
    (env : Env) (spec : MigrationSpec) (s : PodsMap) (t : Trace)
    → IsWellFormed spec
    → (check_fields env spec s t).outcome ≡ ok tt
unfolding check_fields ◌>>=◌
check_fields_total env spec s t h = ground arith

not-is_empty : {A : Type 0} (xs : List A) → xs ≢ [] → not (is_empty xs) ≡ true
not-is_empty [] h = absurd (h refl)
not-is_empty (x ∷ xs) h = refl

module _ (env : Env) where
  not_processed-ok :
      (n : Bytes) (e : Error) (s : PodsMap) (t : Trace)
      → (not_processed env n e s t).outcome ≡ ok tt
      → contains n s ≡ false
  unfolding not_processed ◌>>=◌
  not_processed-ok n e s t h = ground arith

  for_each-not_processed :
      (e : Bytes → Error) (ns : List Bytes) (s : PodsMap) (t : Trace)
      → (for_each ns (λ n. not_processed env n (e n)) s t).outcome ≡ ok tt
      → All (λ n. contains n s ≡ false) ns
  unfolding for_each
  for_each-not_processed e [] s t h = tt
  for_each-not_processed e (n ∷ ns) s t h =
      let step = not_processed env n (e n) in
      let (_, first, rest) =
        bind-ok step (λ _. for_each ns (λ n. not_processed env n (e n))) s t h in
      let same =
        (not_processed-Untouched env {s₀ = s} {w = writes t} n (e n)).at s t (refl, refl) in
      (
        not_processed-ok n (e n) s t first,
        rw same.0 at (for_each-not_processed e ns (step s t).globals (step s t).trace rest),
      )

  check_processed-ok :
      (spec : MigrationSpec) (s : PodsMap) (t : Trace)
      → (check_processed env spec s t).outcome ≡ ok tt
      → IsFree spec s
  unfolding check_processed
  check_processed-ok spec s t h =
      let named = not (is_empty spec.pod_name) in
      let step = not_processed env spec.pod_name (pod_is_processed spec) in
      let (_, first, rest) = bind-ok (when named step) _ s t h in
      let same =
        (Keeps-when named step (not_processed-Untouched env {s₀ = s} {w = writes t} _ _)).at s t
          (refl, refl) in
      record {
        pod = λ some_name.
            not_processed-ok _ _ s t (when-ok named step s t first (not-is_empty _ some_name));
        listed = rw same.0 at (for_each-not_processed _ _ _ _ rest);
      }

  -- An accepted Migration is well formed, and none of its pods is being processed.
  pub validate-ok :
      (spec : MigrationSpec) (s : PodsMap) (t : Trace)
      → (validate_migration env spec s t).outcome ≡ ok tt
      → IsWellFormed spec × IsFree spec s
  unfolding validate_migration
  validate-ok spec s t h =
      let r₁ = check_fields env spec s t in
      let r₂ = client_or_error env r₁.globals r₁.trace in
      let (_, fields, h₁) = bind-ok (check_fields env spec) _ s t h in
      let same₁ = (check_fields-Untouched env {s₀ = s} {w = writes t} spec).at s t (refl, refl) in
      let (c, client, h₂) = bind-ok (client_or_error env) _ r₁.globals r₁.trace h₁ in
      let same₂ =
        (client_or_error-Untouched env {s₀ = s} {w = writes t}).at r₁.globals r₁.trace same₁ in
      let (_, targets, h₃) = bind-ok (check_targets env c spec) _ r₂.globals r₂.trace h₂ in
      let r₃ = check_targets env c spec r₂.globals r₂.trace in
      let same₃ =
        (check_targets-Untouched env {s₀ = s} {w = writes t} c spec).at r₂.globals r₂.trace same₂ in
      (
        check_fields-ok env spec s t fields,
        rw same₃.0 at (check_processed-ok spec r₃.globals r₃.trace h₃),
      )
