-- ===== src/Base/Text/UpTo.antt =====
-- What comes before a separator, beside the splitting functions of the package `strings`.
use Prim.Native.Nat.{ℕ, suc}
use mathlib.Core.Path.{◌≡◌, refl}
use mathlib.Core.Option.{Option, none, some}
use mathlib.Core.Option
use mathlib.Core.Bool.{Bool, true, false}
use mathlib.Core.List.{List, [], ◌∷◌}
use native.Mathlib.Omega.{arith}
use checkpoint_operator.Base.Tests.{◌==◌, if◌then◌else◌}
use checkpoint_operator.Base.Text.{Bytes, index, parts_at, split_two, onto_first, split}

-- The bytes before the first `sep`, or all of them.
abbrev pub up_to : ℕ → Bytes → Bytes
up_to sep [] = []
up_to sep (b ∷ s) = if b == sep then [] else b ∷ up_to sep s

onto_head :
    (c : Bool) (b : ℕ) (s first : Bytes) (more rest : List Bytes)
    → rest ≡ first ∷ more
    → (more' : List Bytes) × ((if c then [] ∷ rest else onto_first b rest)
        ≡ (if c then [] else b ∷ first) ∷ more')
unfolding onto_first
onto_head true b s first more rest e = (rest, refl)
onto_head false b s first more rest e = rw e (more, refl)

pub split-up_to : (s : Bytes) (sep : ℕ) → (more : List Bytes) × (split s sep ≡ up_to sep s ∷ more)
unfolding split
split-up_to [] sep = ([], refl)
split-up_to (b ∷ s) sep =
    let (more, e) = split-up_to s sep in onto_head (b == sep) b s (up_to sep s) more (split s sep) e

parts_at-suc :
    (c : Bool) (b : ℕ) (s first : Bytes) (more : List Bytes) (i : Option ℕ)
    → parts_at i s ≡ first ∷ more
    → (more' : List Bytes) × (parts_at (if c then some 0 else Option.map suc i) (b ∷ s)
        ≡ (if c then [] else b ∷ first) ∷ more')
unfolding parts_at
parts_at-suc true b s first more i e = (_, refl)
parts_at-suc false b s first more none e = ([], ground arith)
parts_at-suc false b s first more (some i) e = (more, ground arith)

pub split_two-up_to :
    (s : Bytes) (sep : ℕ) → (more : List Bytes) × (split_two s sep ≡ up_to sep s ∷ more)
unfolding split_two index parts_at
split_two-up_to [] sep = ([], refl)
split_two-up_to (b ∷ s) sep =
    let (more, e) = split_two-up_to s sep in
    parts_at-suc (b == sep) b s (up_to sep s) more (index s sep) e
