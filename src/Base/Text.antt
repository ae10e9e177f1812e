-- ===== src/Base/Text.antt =====
-- Go strings as lists of bytes, and the functions of the package `strings` that the program calls.
pub mod UpTo
use Prim.Native.Nat.{ℕ, zero, suc}
use Prim.Native.Char.{code}
use Prim.Native.String.{String}
use mathlib.Core.Path.{◌≡◌, refl}
use mathlib.Core.Logic.{◌↔◌, ◌≢◌}
use mathlib.Core.Bool.{Bool, true, false, ◌&&◌}
use mathlib.Core.Option.{Option, none, some}
use mathlib.Core.Option
use mathlib.Core.List.{List, [], ◌∷◌, ◌++◌}
use native.Mathlib.Omega.{arith}
use checkpoint_operator.Base.Tests.{◌==◌, if◌then◌else◌}
use checkpoint_operator.Base.Lists.{length, take, drop, All, drop-append_self, take-append_self}

abbrev pub Bytes : Type 0
Bytes = List ℕ

-- The bytes of an ASCII literal.
abbrev pub codes : String → Bytes
codes String.[] = []
codes (String.◌∷◌ c s) = code c ∷ codes s

-- `s == t`
infix 50 ◌=s◌
unfoldable pub ◌=s◌ : Bytes → Bytes → Bool
[] =s [] = true
[] =s (c ∷ t) = false
(b ∷ s) =s [] = false
(b ∷ s) =s (c ∷ t) = b == c && s =s t

-- strings.HasPrefix(s, prefix)
unfoldable pub has_prefix : Bytes → Bytes → Bool
has_prefix s [] = true
has_prefix [] (p ∷ ps) = false
has_prefix (b ∷ s) (p ∷ ps) = b == p && has_prefix s ps

-- strings.TrimPrefix(s, prefix)
unfoldable pub trim_prefix : Bytes → Bytes → Bytes
unfolding has_prefix
trim_prefix s prefix = if has_prefix s prefix then drop (length prefix) s else s

-- strings.Index(s, sep) for a separator of one byte; `none` is -1.
unfoldable pub index : Bytes → ℕ → Option ℕ
index [] sep = none
index (b ∷ s) sep = if b == sep then some 0 else Option.map suc (index s sep)

parts_at : Option ℕ → Bytes → List Bytes
parts_at none s = s ∷ []
parts_at (some i) s = take i s ∷ drop (suc i) s ∷ []

-- strings.SplitN(s, sep, 2) for a separator of one byte
unfoldable pub split_two : Bytes → ℕ → List Bytes
unfolding parts_at index
split_two s sep = parts_at (index s sep) s

-- `sep` does not occur in `s`.
abbrev pub Lacks : ℕ → Bytes → Type 0
Lacks sep = All (λ b. b ≢ sep)

pub =s_refl : (s : Bytes) → s =s s ≡ true
unfolding ◌=s◌
=s_refl [] = refl
=s_refl (b ∷ s) = ground (arith, =s_refl s)

pub =s→eq : (s t : Bytes) → s =s t ≡ true → s ≡ t
unfolding ◌=s◌
=s→eq [] [] h = refl
=s→eq [] (c ∷ t) h = cc
=s→eq (b ∷ s) [] h = cc
=s→eq (b ∷ s) (c ∷ t) h = ground (arith, =s→eq s t)

pub =s_iff : (s t : Bytes) → (s =s t ≡ true) ↔ (s ≡ t)
=s_iff s t = (=s→eq s t, λ e. rw e (=s_refl t))

pub has_prefix-append : (p s : Bytes) → has_prefix (p ++ s) p ≡ true
unfolding has_prefix
has_prefix-append [] s = refl
has_prefix-append (b ∷ p) s = ground (arith, has_prefix-append p s)

pub trim_prefix-append : (p s : Bytes) → trim_prefix (p ++ s) p ≡ s
unfolding trim_prefix
trim_prefix-append p s = rw has_prefix-append (drop-append_self p s)

pub index-append :
    (s t : Bytes) (sep : ℕ) → Lacks sep s → index (s ++ sep ∷ t) sep ≡ some (length s)
unfolding index
index-append [] t sep h = ground arith
index-append (b ∷ s) t sep h = ground (arith, index-append s t sep h.1)

pub index-Lacks : (s : Bytes) (sep : ℕ) → Lacks sep s → index s sep ≡ none
unfolding index
index-Lacks [] sep h = refl
index-Lacks (b ∷ s) sep h = ground (arith, index-Lacks s sep h.1)

pub drop-suc-append : (s t : Bytes) (sep : ℕ) → drop (suc (length s)) (s ++ sep ∷ t) ≡ t
drop-suc-append [] t sep = refl
drop-suc-append (b ∷ s) t sep = drop-suc-append s t sep

-- What stands before the first separator lacks it.
pub take-index-Lacks : (s : Bytes) (sep i : ℕ) → index s sep ≡ some i → Lacks sep (take i s)
unfolding index
take-index-Lacks [] sep i h = cc
take-index-Lacks (b ∷ s) sep zero h = tt
take-index-Lacks (b ∷ s) sep (suc i) h = (ground arith, take-index-Lacks s sep i (ground arith))

pub index-none-Lacks : (s : Bytes) (sep : ℕ) → index s sep ≡ none → Lacks sep s
unfolding index
index-none-Lacks [] sep h = tt
index-none-Lacks (b ∷ s) sep h = (ground arith, index-none-Lacks s sep (ground arith))

pub split_two-append :
    (s t : Bytes) (sep : ℕ) → Lacks sep s → split_two (s ++ sep ∷ t) sep ≡ s ∷ t ∷ []
unfolding split_two
split_two-append s t sep h =
    rw (index-append s t sep h) (cc (take-append_self s (sep ∷ t), drop-suc-append s t sep))

onto_first : ℕ → List Bytes → List Bytes
onto_first b [] = (b ∷ []) ∷ []
onto_first b (p ∷ ps) = (b ∷ p) ∷ ps

-- strings.Split(s, sep) for a separator of one byte
unfoldable pub split : Bytes → ℕ → List Bytes
unfolding onto_first
split [] sep = [] ∷ []
split (b ∷ s) sep = let rest = split s sep in if b == sep then [] ∷ rest else onto_first b rest

-- A string that lacks the separator, and goes on with it or ends, is the first part.
pub split-append :
    (s t : Bytes) (sep : ℕ) → Lacks sep s → split (s ++ sep ∷ t) sep ≡ s ∷ split t sep
unfolding split
split-append [] t sep h = ground arith
split-append (b ∷ s) t sep h = ground (arith, split-append s t sep h.1)

pub All-append_Lacks : (sep : ℕ) (s t : Bytes) → Lacks sep s → Lacks sep t → Lacks sep (s ++ t)
All-append_Lacks sep [] t h k = k
All-append_Lacks sep (b ∷ s) t h k = (h.0, All-append_Lacks sep s t h.1 k)
