-- ===== src/Threads/Safe/Pool.antt =====
-- What each goroutine keeps by itself is kept by every interleaving.
use checkpoint_operator.Base.{List, [], ◌∷◌, All}
use checkpoint_operator.Cluster.{Trace}
use checkpoint_operator.Threads.{Prog}
use checkpoint_operator.Threads.Pool.{Moves, here, there, Reach, start, later}
use checkpoint_operator.Threads.Safe.{
  Extends, Extends-refl, Extends-trans, AnyValue, SafeFrom, Safe,
}

-- Each goroutine is safe from some trace on that the present one extends.
abbrev AllSafe : {S A : Type 0} → (S → Trace → Type 0) → List (Prog S A) → Trace → Type 0
AllSafe I ps t = All (λ p. (t₀ : Trace) × Extends t₀ t × SafeFrom I AnyValue p t₀) ps

module _ {S A : Type 0} (I : S → Trace → Type 0) where
  AllSafe-Extends :
      (ps : List (Prog S A)) (t u : Trace) → Extends t u → AllSafe I ps t → AllSafe I ps u
  AllSafe-Extends [] t u x h = tt
  AllSafe-Extends (p ∷ ps) t u x ((t₀, y, safe), rest) =
      ((t₀, Extends-trans t₀ t u y x, safe), AllSafe-Extends ps t u x rest)

  Moves-AllSafe :
      {s : S} {t : Trace} {ps ps' : List (Prog S A)} {s' : S} {t' : Trace}
      → Moves s t ps ps' s' t'
      → I s t
      → AllSafe I ps t
      → I s' t' × Extends t t' × AllSafe I ps' t'
  Moves-AllSafe {s} {t} {t'} (here {ps = ps}) i ((t₀, x, safe), rest) =
      let (kept, longer, on) = safe s t x i in
      (kept, longer, ((_, Extends-refl _, on), AllSafe-Extends ps t _ longer rest))
  Moves-AllSafe {t} {t'} (there m) i ((t₀, x, safe), rest) =
      let (kept, longer, others) = Moves-AllSafe m i rest in
      (kept, longer, ((t₀, Extends-trans t₀ t t' x longer, safe), others))

  Reach-AllSafe :
      {ps : List (Prog S A)} {s : S} {t : Trace} {ps' : List (Prog S A)} {s' : S} {t' : Trace}
      → Reach ps s t ps' s' t'
      → I s t
      → AllSafe I ps t
      → I s' t' × AllSafe I ps' t'
  Reach-AllSafe start i h = (i, h)
  Reach-AllSafe (later r alive m) i h =
      let (i', h') = Reach-AllSafe r i h in
      let (kept, _, others) = Moves-AllSafe m i' h' in (kept, others)

  all_from : (ps : List (Prog S A)) (t : Trace) → All (λ p. Safe I AnyValue p t) ps → AllSafe I ps t
  all_from [] t h = tt
  all_from (p ∷ ps) t (safe, rest) = ((t, Extends-refl t, safe.from), all_from ps t rest)

  -- What each of the goroutines keeps, their interleavings keep.
  pub Reach-keeps :
      {ps : List (Prog S A)} {s : S} {t : Trace} {ps' : List (Prog S A)} {s' : S} {t' : Trace}
      → Reach ps s t ps' s' t'
      → All (λ p. Safe I AnyValue p t) ps
      → I s t
      → I s' t'
  Reach-keeps {ps} {t} r h i = (Reach-AllSafe r i (all_from ps t h)).0
