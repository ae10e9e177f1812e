-- ===== src/DeepCopy/Memory.antt =====
-- Memory as far as slices share it: a list of arrays, which a slice names by their place.
use checkpoint_operator.Base.{
  ℕ, zero, suc, ◌+◌, ◌≤◌, ◌<◌, ◌≡◌, ◌≢◌, refl, ap, List, [], ◌∷◌, ◌++◌, Option, none, some, length,
  take, drop, length-take, arith,
}

pub record Slice : Type 0 where
  pub array : ℕ
  pub start : ℕ
  pub len : ℕ

module _ {A : Type 0} where
  abbrev pub at : ℕ → List A → Option A
  at i [] = none
  at zero (x ∷ xs) = some x
  at (suc i) (x ∷ xs) = at i xs

  -- The list with `y` at place `i`, if it is that long.
  abbrev pub put : ℕ → A → List A → List A
  put i y [] = []
  put zero y (x ∷ xs) = y ∷ xs
  put (suc i) y (x ∷ xs) = x ∷ put i y xs

  -- The elements of `xs` from place `i` on give way to `ys`, as far as both go.
  abbrev pub overwrite : ℕ → List A → List A → List A
  overwrite i ys [] = []
  overwrite zero [] (x ∷ xs) = x ∷ xs
  overwrite zero (y ∷ ys) (x ∷ xs) = y ∷ overwrite zero ys xs
  overwrite (suc i) ys (x ∷ xs) = x ∷ overwrite i ys xs

  abbrev pub repeat : ℕ → A → List A
  repeat zero x = []
  repeat (suc n) x = x ∷ repeat n x

  -- The elements of a slice of the array `xs`.
  abbrev pub window : Slice → List A → List A
  window s xs = take s.len (drop s.start xs)

  -- The two memories have the same arrays from place `lo` up to `hi`.
  abbrev pub Same : ℕ → ℕ → List A → List A → Type 0
  Same lo hi g m = (a : ℕ) → lo ≤ a → a < hi → at a g ≡ at a m

  pub length-put : (i : ℕ) (y : A) (xs : List A) → length (put i y xs) ≡ length xs
  length-put i y [] = refl
  length-put zero y (x ∷ xs) = refl
  length-put (suc i) y (x ∷ xs) = ap suc (length-put i y xs)

  pub at-put : (i : ℕ) (y : A) (xs : List A) → i < length xs → at i (put i y xs) ≡ some y
  at-put i y [] h = absurd (omega arith)
  at-put zero y (x ∷ xs) h = refl
  at-put (suc i) y (x ∷ xs) h = at-put i y xs (omega arith)

  length-drop_le : (i n : ℕ) (xs : List A) → i + n ≤ length xs → n ≤ length (drop i xs)
  length-drop_le zero n xs h = omega arith
  length-drop_le (suc i) n [] h = omega arith
  length-drop_le (suc i) n (x ∷ xs) h = length-drop_le i n xs (omega arith)

  pub at-put_other : (i j : ℕ) (y : A) (xs : List A) → j ≢ i → at j (put i y xs) ≡ at j xs
  at-put_other i j y [] h = refl
  at-put_other zero zero y (x ∷ xs) h = absurd (h refl)
  at-put_other zero (suc j) y (x ∷ xs) h = refl
  at-put_other (suc i) zero y (x ∷ xs) h = refl
  at-put_other (suc i) (suc j) y (x ∷ xs) h = at-put_other i j y xs (λ e. h (ap suc e))

  pub at-append_below : (i : ℕ) (xs ys : List A) → i < length xs → at i (xs ++ ys) ≡ at i xs
  at-append_below i [] ys h = absurd (omega arith)
  at-append_below zero (x ∷ xs) ys h = refl
  at-append_below (suc i) (x ∷ xs) ys h = at-append_below i xs ys (omega arith)

  pub at-append_self : (xs : List A) (y : A) (ys : List A) → at (length xs) (xs ++ y ∷ ys) ≡ some y
  at-append_self [] y ys = refl
  at-append_self (x ∷ xs) y ys = at-append_self xs y ys

  pub put-append_self :
      (xs : List A) (z y : A) (ys : List A) → put (length xs) z (xs ++ y ∷ ys) ≡ xs ++ z ∷ ys
  put-append_self [] z y ys = refl
  put-append_self (x ∷ xs) z y ys = ap (λ l. x ∷ l) (put-append_self xs z y ys)

  pub take-all : (xs : List A) → take (length xs) xs ≡ xs
  take-all [] = refl
  take-all (x ∷ xs) = ap (λ l. x ∷ l) (take-all xs)

  pub length-repeat : (n : ℕ) (x : A) → length (repeat n x) ≡ n
  length-repeat zero x = refl
  length-repeat (suc n) x = ap suc (length-repeat n x)

  -- A slice that lies within its array has as many elements as it says.
  pub length-window :
      (s : Slice) (xs : List A) → s.start + s.len ≤ length xs → length (window s xs) ≡ s.len
  length-window s xs h = length-take s.len (drop s.start xs) (length-drop_le s.start s.len xs h)

  -- The built-in `copy` onto an array of the same length.
  pub overwrite-all : (ys xs : List A) → length ys ≡ length xs → overwrite 0 ys xs ≡ ys
  overwrite-all [] [] h = refl
  overwrite-all [] (x ∷ xs) h = absurd (omega arith)
  overwrite-all (y ∷ ys) [] h = absurd (omega arith)
  overwrite-all (y ∷ ys) (x ∷ xs) h = ap (λ l. y ∷ l) (overwrite-all ys xs (omega arith))
