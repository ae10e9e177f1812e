-- ===== src/DeepCopy/Items.antt =====
-- What a slice of Migrations shows, and that it does so while its arrays stay.
use checkpoint_operator.Base.{
  ◌+◌, ◌≤◌, ◌<◌, ◌≡◌, refl, ap, ap₂, ◌∙◌, List, [], ◌∷◌, map, Option, none, some, Bytes, length,
  All, All-map, arith,
}
use checkpoint_operator.DeepCopy.{Migration, Memory, migration_array, migrations_of}
use checkpoint_operator.DeepCopy.Memory.{Slice, Same, at, window}
use checkpoint_operator.DeepCopy.Laws.{IsReadable}
use checkpoint_operator.DeepCopy.Single.{
  IsLiveMigration, shown_migration, shown_migration-IsReadable,
}

pub migrations_of-Same :
    {M : Type 0} (m g : Memory M) (s : Slice)
    → at s.array g ≡ at s.array m
    → migrations_of g s ≡ migrations_of m s
unfolding migrations_of
migrations_of-Same m g s e = ap (λ a. window s (migration_array a)) e

module _ {M V : Type 0} (view_meta : Memory M → M → V) (LiveMeta : Memory M → M → Type 0) where
  pub record AreWithin (m : Memory M) (s : Slice) : Type 0 where
    pub in_memory : s.array < length m
    pub in_array : s.start + s.len ≤ length (migration_array (at s.array m))
    pub each : All (IsLiveMigration view_meta LiveMeta m) (migrations_of m s)

  abbrev pub AreLiveItems : Memory M → Option Slice → Type 0
  AreLiveItems m none = Unit
  AreLiveItems m (some s) = AreWithin m s

  abbrev pub shown : Memory M → List (Migration M Slice) → List (Migration V (List Bytes))
  shown m = map (shown_migration view_meta LiveMeta m)

  abbrev pub shown_items : Memory M → Option Slice → Option (List (Migration V (List Bytes)))
  shown_items m none = none
  shown_items m (some s) = some (shown m (migrations_of m s))

module _ {M V : Type 0} (view_meta : Memory M → M → V) (LiveMeta : Memory M → M → Type 0)
    (r : IsReadable view_meta LiveMeta) where
  shown-Same :
      (m g : Memory M) (xs : List (Migration M Slice))
      → All (IsLiveMigration view_meta LiveMeta m) xs
      → Same 0 (length m) g m
      → shown view_meta LiveMeta g xs ≡ shown view_meta LiveMeta m xs
  shown-Same m g [] live same = refl
  shown-Same m g (x ∷ xs) live same =
      ap₂ (λ a b. a ∷ b) ((shown_migration-IsReadable view_meta LiveMeta r).shows m g x live.0 same)
        (shown-Same m g xs live.1 same)

  pub shown_items-IsReadable :
      IsReadable (shown_items view_meta LiveMeta) (AreLiveItems view_meta LiveMeta)
  shown_items-IsReadable = record { shows = shows; stays = stays }
    where
      shows :
          (m g : Memory M) (x : Option Slice)
          → AreLiveItems view_meta LiveMeta m x
          → Same 0 (length m) g m
          → shown_items view_meta LiveMeta g x ≡ shown_items view_meta LiveMeta m x
      shows m g none live same = refl
      shows m g (some s) live same = ap some (
          ap (shown view_meta LiveMeta g)
            (migrations_of-Same m g s (same s.array (omega arith) live.in_memory))
          ∙ shown-Same m g (migrations_of m s) live.each same)

      stays :
          (m g : Memory M) (x : Option Slice)
          → AreLiveItems view_meta LiveMeta m x
          → Same 0 (length m) g m
          → length m ≤ length g
          → AreLiveItems view_meta LiveMeta g x
      stays m g none live same longer = tt
      stays m g (some s) live same longer =
          let e = same s.array (omega arith) live.in_memory in
          record {
            in_memory = omega (arith, live.in_memory);
            in_array = rw e live.in_array;
            each = rw (migrations_of-Same m g s e) (
                All-map
                  (λ x l.
                    (shown_migration-IsReadable view_meta LiveMeta r).stays m g x l same longer)
                  (migrations_of m s) live.each);
          }
