-- ===== src/DeepCopy/Laws.antt =====
-- What a copying function promises: it lets the arrays be that are there, and what the copy shows
-- stands in the arrays that it makes.
use checkpoint_operator.Base.{◌≤◌, ◌≡◌, ap₂, ◌∙◌, length, arith}
use checkpoint_operator.DeepCopy.{Memory}
use checkpoint_operator.DeepCopy.Memory.{Same}

-- `view m x` is what `x` shows in the memory `m`, where `Live m x` says that its slices lie within
-- arrays of `m`.
module _ {M X V : Type 0} (view : Memory M → X → V) (Live : Memory M → X → Type 0) where
  pub record IsReadable : Type 0 where
    pub shows : (m g : Memory M) (x : X) → Live m x → Same 0 (length m) g m → view g x ≡ view m x
    pub stays :
        (m g : Memory M) (x : X) → Live m x → Same 0 (length m) g m → length m ≤ length g → Live g x

  pub record IsDeepCopy (copy : X → Memory M → X × Memory M) : Type 0 where
    pub grows : (x : X) (m : Memory M) → Live m x → length m ≤ length (copy x m).1
    pub keeps : (x : X) (m : Memory M) → Live m x → Same 0 (length m) (copy x m).1 m
    pub copies :
        (x : X) (m g : Memory M)
        → Live m x
        → Same (length m) (length (copy x m).1) g (copy x m).1
        → view g (copy x m).0 ≡ view m x

-- Two things, one copied after the other.
module _ {M X Y : Type 0} where
  abbrev pub AreBoth : (Memory M → X → Type 0) → (Memory M → Y → Type 0) → Memory M → X × Y → Type 0
  AreBoth LiveX LiveY m p = LiveX m p.0 × LiveY m p.1

  abbrev pub view_both :
      {V W : Type 0} → (Memory M → X → V) → (Memory M → Y → W) → Memory M → X × Y → V × W
  view_both v w m p = (v m p.0, w m p.1)

  abbrev pub copy_both :
      (X → Memory M → X × Memory M)
      → (Y → Memory M → Y × Memory M)
      → X × Y
      → Memory M
      → (X × Y) × Memory M
  copy_both c d p m = let a = c p.0 m in let b = d p.1 a.1 in ((a.0, b.0), b.1)

  module _ {V W : Type 0} {v : Memory M → X → V} {LiveX : Memory M → X → Type 0}
      {w : Memory M → Y → W} {LiveY : Memory M → Y → Type 0} (r : IsReadable v LiveX)
      (q : IsReadable w LiveY) where
    pub both-IsReadable : IsReadable (view_both v w) (AreBoth LiveX LiveY)
    both-IsReadable = record {
      shows = λ m g p live same.
          ap₂ (λ a b. (a, b)) (r.shows m g p.0 live.0 same) (q.shows m g p.1 live.1 same);
      stays = λ m g p live same longer.
          (r.stays m g p.0 live.0 same longer, q.stays m g p.1 live.1 same longer);
    }

    module _ {c : X → Memory M → X × Memory M} {d : Y → Memory M → Y × Memory M}
        (kc : IsDeepCopy v LiveX c) (kd : IsDeepCopy w LiveY d) where
      -- The second is still live when the first has been copied.
      still_live : (p : X × Y) (m : Memory M) → AreBoth LiveX LiveY m p → LiveY (c p.0 m).1 p.1
      still_live p m live =
          q.stays m (c p.0 m).1 p.1 live.1 (kc.keeps p.0 m live.0) (kc.grows p.0 m live.0)

      pub both-IsDeepCopy : IsDeepCopy (view_both v w) (AreBoth LiveX LiveY) (copy_both c d)
      both-IsDeepCopy = record { grows = grows; keeps = keeps; copies = copies }
        where
          grows :
              (p : X × Y) (m : Memory M)
              → AreBoth LiveX LiveY m p
              → length m ≤ length (copy_both c d p m).1
          grows p m live =
              omega (arith, kc.grows p.0 m live.0, kd.grows p.1 (c p.0 m).1 (still_live p m live))

          keeps :
              (p : X × Y) (m : Memory M)
              → AreBoth LiveX LiveY m p
              → Same 0 (length m) (copy_both c d p m).1 m
          keeps p m live = λ a lo hi.
              kd.keeps p.1 (c p.0 m).1 (still_live p m live) a (omega arith)
                (omega (arith, kc.grows p.0 m live.0))
              ∙ kc.keeps p.0 m live.0 a lo hi

          copies :
              (p : X × Y) (m g : Memory M)
              → AreBoth LiveX LiveY m p
              → Same (length m) (length (copy_both c d p m).1) g (copy_both c d p m).1
              → view_both v w g (copy_both c d p m).0 ≡ view_both v w m p
          copies p m g live same =
              let m₁ = (c p.0 m).1 in
              let live' = still_live p m live in
              ap₂ (λ a b. (a, b))
                (kc.copies p.0 m g live.0 (λ a lo hi.
                  same a lo (omega (arith, kd.grows p.1 m₁ live'))
                  ∙ kd.keeps p.1 m₁ live' a (omega arith) hi))
                (kd.copies p.1 m₁ g live'
                    (λ a lo hi. same a (omega (arith, kc.grows p.0 m live.0)) hi)
                  ∙ q.shows m m₁ p.1 live.1 (kc.keeps p.0 m live.0))
