-- ===== src/Threads/Safe.antt =====
-- Invariants under interleaving. What a goroutine relies on has to stay true while others run: it is
-- an invariant of the variables and the trace, and facts that a longer trace keeps.
pub mod Pool
use checkpoint_operator.Base.{
  List, [], ◌∷◌, ◌++◌, Bool, true, false, if◌then◌else◌, All, ◌≡◌, refl, sym, ap, ◌∙◌, append_assoc,
}
use checkpoint_operator.Outcome.{Error, Outcome, ok, err, panic}
use checkpoint_operator.Cluster.{Call, Trace}
use checkpoint_operator.Proc.{Proc, call, gets, modify, observe}
use checkpoint_operator.Threads.{Prog, done, step, atomic, ◌>>=◌, on_error, for_each}
use checkpoint_operator.Threads.Pool.{Moves, here, there, Alive, Reach, start, later}

-- Calls have been made since.
abbrev pub Extends : Trace → Trace → Type 0
Extends old new = (calls : Trace) × (new ≡ calls ++ old)

pub Extends-refl : (t : Trace) → Extends t t
Extends-refl t = ([], refl)

pub Extends-trans : (t u v : Trace) → Extends t u → Extends u v → Extends t v
Extends-trans t u v (a, e) (b, f) = (b ++ a, f ∙ ap (λ w. b ++ w) e ∙ sym (append_assoc b a t))

-- Of a value that has been computed.
abbrev pub Given : {A : Type 0} → (A → Trace → Type 0) → Outcome A → Trace → Type 0
Given Q (ok a) t = Q a t
Given Q (err e) t = Unit
Given Q panic t = Unit

-- From a trace on, each step keeps `I`, however far the others have brought the variables and the
-- trace before it, if they have kept `I`; and the value at the end satisfies `Q`.
abbrev pub SafeFrom :
    {S A : Type 0} → (S → Trace → Type 0) → (A → Trace → Type 0) → Prog S A → Trace → Type 0
SafeFrom I Q (done r) t₀ = Given Q r t₀
SafeFrom {S} I Q (step effect rest) t₀ =
    (s : S) (t : Trace)
    → Extends t₀ t
    → I s t
    → I (effect s t).0 (effect s t).1
      × Extends t (effect s t).1
      × SafeFrom I Q (rest s t) (effect s t).1

pub record Safe {S A : Type 0} (I : S → Trace → Type 0) (Q : A → Trace → Type 0) (p : Prog S A)
    (t₀ : Trace) : Type 0 where
  pub from : SafeFrom I Q p t₀

-- No condition on the value.
abbrev pub AnyValue : {A : Type 0} → A → Trace → Type 0
AnyValue a t = Unit {0}

pub nothing_asked : {A : Type 0} (r : Outcome A) (t : Trace) → Given AnyValue r t
nothing_asked (ok a) t = tt
nothing_asked (err e) t = tt
nothing_asked panic t = tt

module _ {S : Type 0} {I : S → Trace → Type 0} where
  pub Safe-done : {A : Type 0} (r : Outcome A) (t₀ : Trace) → Safe I AnyValue (done r) t₀
  Safe-done r t₀ = record { from = nothing_asked r t₀ }

  pub Safe-ok :
      {A : Type 0} {Q : A → Trace → Type 0} (a : A) (t₀ : Trace)
      → Q a t₀
      → Safe I Q (done (ok a)) t₀
  Safe-ok a t₀ q = record { from = q }

  pub Safe-err :
      {A : Type 0} {Q : A → Trace → Type 0} (e : Error) (t₀ : Trace) → Safe I Q (done (err e)) t₀
  Safe-err e t₀ = record { from = tt }

  -- A step of which all is known.
  pub Safe-atomic :
      {A : Type 0} {Q : A → Trace → Type 0} (m : Proc S A) (t₀ : Trace)
      → ((s : S) (t : Trace)
          → Extends t₀ t
          → I s t
          → I (m s t).globals (m s t).trace
            × Extends t (m s t).trace
            × Given Q (m s t).outcome (m s t).trace)
      → Safe I Q (atomic m) t₀
  unfolding atomic
  Safe-atomic m t₀ h = record { from = h }

  pub Safe-call :
      {A : Type 0} (c : Call) (reply : Trace → Outcome A) (t₀ : Trace)
      → ((s : S) (t : Trace) → I s t → I s (c ∷ t))
      → Safe I AnyValue (atomic (call c reply)) t₀
  unfolding call
  Safe-call c reply t₀ h =
      Safe-atomic (call c reply) t₀
        (λ s t _ i. (h s t i, (c ∷ [], refl), nothing_asked (reply t) (c ∷ t)))

  pub Safe-observe :
      {A : Type 0} (f : Trace → Outcome A) (t₀ : Trace) → Safe I AnyValue (atomic (observe f)) t₀
  unfolding observe
  Safe-observe f t₀ =
      Safe-atomic (observe f) t₀ (λ s t _ i. (i, Extends-refl t, nothing_asked (f t) t))

  pub Safe-gets : {A : Type 0} (f : S → A) (t₀ : Trace) → Safe I AnyValue (atomic (gets f)) t₀
  unfolding gets
  Safe-gets f t₀ = Safe-atomic (gets f) t₀ (λ s t _ i. (i, Extends-refl t, tt))

  pub Safe-modify :
      (f : S → S) (t₀ : Trace)
      → ((s : S) (t : Trace) → I s t → I (f s) t)
      → Safe I AnyValue (atomic (modify f)) t₀
  unfolding modify
  Safe-modify f t₀ h = Safe-atomic (modify f) t₀ (λ s t _ i. (h s t i, Extends-refl t, tt))

  pub Safe-if :
      {A : Type 0} {Q : A → Trace → Type 0} (test : Bool) (p q : Prog S A) (t₀ : Trace)
      → (test ≡ true → Safe I Q p t₀)
      → (test ≡ false → Safe I Q q t₀)
      → Safe I Q (if test then p else q) t₀
  Safe-if true p q t₀ h k = h refl
  Safe-if false p q t₀ h k = k refl

module _ {S A B : Type 0} (I : S → Trace → Type 0) (Q : A → Trace → Type 0)
    (R : B → Trace → Type 0) where
  bind_from :
      (p : Prog S A) (f : A → Prog S B) (t₀ : Trace)
      → SafeFrom I Q p t₀
      → ((a : A) (t : Trace) → Extends t₀ t → Q a t → SafeFrom I R (f a) t)
      → SafeFrom I R (p >>= f) t₀
  unfolding ◌>>=◌
  bind_from (done (ok a)) f t₀ h k = k a t₀ (Extends-refl t₀) h
  bind_from (done (err e)) f t₀ h k = tt
  bind_from (done panic) f t₀ h k = tt
  bind_from (step effect rest) f t₀ h k = λ s t x i.
      let (kept, longer, safe) = h s t x i in
      let since = Extends-trans t₀ t (effect s t).1 x longer in
      (
        kept,
        longer,
        bind_from (rest s t) f (effect s t).1 safe
            (λ a u y q. k a u (Extends-trans t₀ (effect s t).1 u since y) q),
      )

  on_error_from :
      (p : Prog S A) (f : Error → Prog S B) (g : A → Prog S B) (t₀ : Trace)
      → SafeFrom I Q p t₀
      → ((e : Error) (t : Trace) → SafeFrom I R (f e) t)
      → ((a : A) (t : Trace) → Extends t₀ t → Q a t → SafeFrom I R (g a) t)
      → SafeFrom I R (on_error p f g) t₀
  unfolding on_error
  on_error_from (done (ok a)) f g t₀ h l k = k a t₀ (Extends-refl t₀) h
  on_error_from (done (err e)) f g t₀ h l k = l e t₀
  on_error_from (done panic) f g t₀ h l k = tt
  on_error_from (step effect rest) f g t₀ h l k = λ s t x i.
      let (kept, longer, safe) = h s t x i in
      let since = Extends-trans t₀ t (effect s t).1 x longer in
      (
        kept,
        longer,
        on_error_from (rest s t) f g (effect s t).1 safe l
            (λ a u y q. k a u (Extends-trans t₀ (effect s t).1 u since y) q),
      )

module _ {S A B : Type 0} {I : S → Trace → Type 0} {Q : A → Trace → Type 0}
    {R : B → Trace → Type 0} where
  pub Safe-bind_with :
      (p : Prog S A) (f : A → Prog S B) (t₀ : Trace)
      → Safe I Q p t₀
      → ((a : A) (t : Trace) → Extends t₀ t → Q a t → Safe I R (f a) t)
      → Safe I R (p >>= f) t₀
  Safe-bind_with p f t₀ h k = record {
    from = bind_from I Q R p f t₀ h.from (λ a t x q. (k a t x q).from);
  }

  pub Safe-on_error_with :
      (p : Prog S A) (f : Error → Prog S B) (g : A → Prog S B) (t₀ : Trace)
      → Safe I Q p t₀
      → ((e : Error) (t : Trace) → Safe I R (f e) t)
      → ((a : A) (t : Trace) → Extends t₀ t → Q a t → Safe I R (g a) t)
      → Safe I R (on_error p f g) t₀
  Safe-on_error_with p f g t₀ h l k = record {
    from = on_error_from I Q R p f g t₀ h.from (λ e t. (l e t).from) (λ a t x q. (k a t x q).from);
  }

module _ {S A B : Type 0} {I : S → Trace → Type 0} {R : B → Trace → Type 0} where
  pub Safe-bind :
      (p : Prog S A) (f : A → Prog S B) (t₀ : Trace)
      → Safe I AnyValue p t₀
      → ((a : A) (t : Trace) → Safe I R (f a) t)
      → Safe I R (p >>= f) t₀
  Safe-bind p f t₀ h k = Safe-bind_with p f t₀ h (λ a t _ _. k a t)

  pub Safe-on_error :
      (p : Prog S A) (f : Error → Prog S B) (g : A → Prog S B) (t₀ : Trace)
      → Safe I AnyValue p t₀
      → ((e : Error) (t : Trace) → Safe I R (f e) t)
      → ((a : A) (t : Trace) → Safe I R (g a) t)
      → Safe I R (on_error p f g) t₀
  Safe-on_error p f g t₀ h l k = Safe-on_error_with p f g t₀ h l (λ a t _ _. k a t)

pub Safe-for_each :
    {S A : Type 0} {I : S → Trace → Type 0} (xs : List A) (f : A → Prog S (Unit {0})) (t₀ : Trace)
    → ((a : A) (t : Trace) → Safe I AnyValue (f a) t)
    → Safe I AnyValue (for_each xs f) t₀
unfolding for_each
Safe-for_each [] f t₀ h = Safe-done (ok tt) t₀
Safe-for_each (x ∷ xs) f t₀ h =
    Safe-bind (f x) (λ _. for_each xs f) t₀ (h x t₀) (λ _ t. Safe-for_each xs f t h)

pub ruleset safe_rules = (
  Safe-done, Safe-ok, Safe-err, Safe-observe, Safe-gets, Safe-if, Safe-bind, Safe-on_error,
  Safe-for_each,
)
