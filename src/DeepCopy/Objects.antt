-- ===== src/DeepCopy/Objects.antt =====
-- A MigrationList, the pointers to it and the objects: what is copied shares nothing with its copy.
use checkpoint_operator.Base.{
  ℕ, ◌+◌, ◌≤◌, ◌≡◌, refl, sym, ap, ◌∙◌, List, [], ◌++◌, Option, none, some, Bytes, length, take,
  take-append_self, arith,
}
use checkpoint_operator.DeepCopy.{
  Migration, MigrationList, migrations, Memory, migration_array, migrations_of, deep_copy_items,
  deep_copy_list_into, deep_copy_list, deep_copy_list_object, make, unless_nil, as_object,
}
use checkpoint_operator.DeepCopy.Memory.{Slice, Same, at, length-window}
use checkpoint_operator.DeepCopy.Laws.{
  IsReadable, IsDeepCopy, AreBoth, view_both, both-IsReadable, both-IsDeepCopy,
}
use checkpoint_operator.DeepCopy.Loop.{deep_copy_items_lem}
use checkpoint_operator.DeepCopy.Items.{AreLiveItems, shown, shown_items, shown_items-IsReadable}

module _ {M : Type 0} where
  length-migrations_of :
      (m : Memory M) (s : Slice)
      → s.start + s.len ≤ length (migration_array (at s.array m))
      → length (migrations_of m s) ≡ s.len
  unfolding migrations_of
  length-migrations_of m s h = length-window s (migration_array (at s.array m)) h

  -- The slice of the new array shows the copies.
  migrations_of_copies :
      (m g : Memory M) (all : List (Migration M Slice)) (n : ℕ)
      → at (length m) g ≡ some (migrations (all ++ []))
      → length all ≡ n
      → migrations_of g (record { array = length m; start = 0; len = n }) ≡ all
  unfolding migrations_of
  migrations_of_copies m g all n e len =
      ap (λ a. take n (migration_array a)) e
      ∙ ap (λ k. take k (all ++ [])) (sym len)
      ∙ take-append_self all []

module _ {M V : Type 0} (view_meta : Memory M → M → V) (LiveMeta : Memory M → M → Type 0)
    (r : IsReadable view_meta LiveMeta) where
  module _ {copy_meta : M → Memory M → M × Memory M} (k : IsDeepCopy view_meta LiveMeta copy_meta)
      (no_meta : M) where
    abbrev all_items : Option Slice → Memory M → Option Slice × Memory M
    all_items = deep_copy_items copy_meta no_meta

    pub deep_copy_items-IsDeepCopy :
        IsDeepCopy (shown_items view_meta LiveMeta) (AreLiveItems view_meta LiveMeta) all_items
    unfolding deep_copy_items make
    deep_copy_items-IsDeepCopy = record { grows = grows; keeps = keeps; copies = copies }
      where
        grows :
            (x : Option Slice) (m : Memory M)
            → AreLiveItems view_meta LiveMeta m x
            → length m ≤ length (all_items x m).1
        grows none m live = omega arith
        grows (some s) m live = omega (arith, (deep_copy_items_lem r k no_meta m s live).1.longer)

        keeps :
            (x : Option Slice) (m : Memory M)
            → AreLiveItems view_meta LiveMeta m x
            → Same 0 (length m) (all_items x m).1 m
        keeps none m live = λ a lo hi. refl
        keeps (some s) m live = (deep_copy_items_lem r k no_meta m s live).1.below

        copies :
            (x : Option Slice) (m g : Memory M)
            → AreLiveItems view_meta LiveMeta m x
            → Same (length m) (length (all_items x m).1) g (all_items x m).1
            → shown_items view_meta LiveMeta g (all_items x m).0
              ≡ shown_items view_meta LiveMeta m x
        copies none m g live same = refl
        copies (some s) m g live same =
            let (all, c) = deep_copy_items_lem r k no_meta m s live in
            ap some (
              ap (shown view_meta LiveMeta g) (
                migrations_of_copies m g all s.len
                  (same (length m) (omega arith) c.longer ∙ c.array)
                  (c.level ∙ length-migrations_of m s live.in_array))
              ∙ c.shows g (λ a lo hi. same a (omega arith) hi))

module _ {M L V W : Type 0} (view_meta : Memory M → M → V) (LiveMeta : Memory M → M → Type 0)
    (view_list_meta : Memory M → L → W) (LiveListMeta : Memory M → L → Type 0) where
  abbrev pub IsLiveList : Memory M → MigrationList L Slice → Type 0
  IsLiveList m list =
      AreBoth LiveListMeta (AreLiveItems view_meta LiveMeta) m (list.list_meta, list.items)

  abbrev with_items : {N S : Type 0} → MigrationList L Slice → N × Option S → MigrationList N S
  with_items list p = record { type_meta = list.type_meta; list_meta = p.0; items = p.1 }

  -- What a list shows: its texts, its metadata and its items, each with the texts of its spec.
  abbrev pub shown_list :
      Memory M → MigrationList L Slice → MigrationList W (List (Migration V (List Bytes)))
  shown_list m list =
      with_items list
        (view_both view_list_meta (shown_items view_meta LiveMeta) m (list.list_meta, list.items))

  abbrev pub IsLivePointer : Memory M → Option (MigrationList L Slice) → Type 0
  IsLivePointer m none = Unit
  IsLivePointer m (some list) = IsLiveList m list

  abbrev pub shown_pointer :
      Memory M
      → Option (MigrationList L Slice)
      → Option (MigrationList W (List (Migration V (List Bytes))))
  shown_pointer m none = none
  shown_pointer m (some list) = some (shown_list m list)

  abbrev pub shown_object :
      Memory M
      → Option (Option (MigrationList L Slice))
      → Option (Option (MigrationList W (List (Migration V (List Bytes)))))
  shown_object m none = none
  shown_object m (some p) = some (shown_pointer m p)

  module _ (r : IsReadable view_meta LiveMeta) (q : IsReadable view_list_meta LiveListMeta)
      {copy_meta : M → Memory M → M × Memory M} (k : IsDeepCopy view_meta LiveMeta copy_meta)
      {copy_list_meta : L → Memory M → L × Memory M}
      (l : IsDeepCopy view_list_meta LiveListMeta copy_list_meta) (no_meta : M) where
    shown_list-IsReadable : IsReadable shown_list IsLiveList
    shown_list-IsReadable =
        let both = both-IsReadable q (shown_items-IsReadable view_meta LiveMeta r) in
        record {
          shows = λ m g list live same.
              ap (with_items list) (both.shows m g (list.list_meta, list.items) live same);
          stays = λ m g list. both.stays m g (list.list_meta, list.items);
        }

    deep_copy_list_into-IsDeepCopy :
        IsDeepCopy shown_list IsLiveList (deep_copy_list_into copy_meta no_meta copy_list_meta)
    unfolding deep_copy_list_into
    deep_copy_list_into-IsDeepCopy =
        let both =
          both-IsDeepCopy q (shown_items-IsReadable view_meta LiveMeta r) l
            (deep_copy_items-IsDeepCopy view_meta LiveMeta r k no_meta) in
        record {
          grows = λ list. both.grows (list.list_meta, list.items);
          keeps = λ list. both.keeps (list.list_meta, list.items);
          copies = λ list m g live same.
              ap (with_items list) (both.copies (list.list_meta, list.items) m g live same);
        }

    -- However memory is changed once DeepCopyObject has run, the copy shows what the list showed
    -- before, if the arrays that the run has made are as it left them; and the list shows this too,
    -- if the arrays from before the run are. A nil pointer gives a nil object. Assumed is that the
    -- copying of the metadata is such a copying too.
    pub deep_copy_list_object_shares_nothing :
        (p : Option (MigrationList L Slice)) (m g h : Memory M)
        → IsLivePointer m p
        → Same
            (length m)
            (length (deep_copy_list_object copy_meta no_meta copy_list_meta p m).1)
            g
            (deep_copy_list_object copy_meta no_meta copy_list_meta p m).1
        → Same 0 (length m) h (deep_copy_list_object copy_meta no_meta copy_list_meta p m).1
        → (shown_object g (deep_copy_list_object copy_meta no_meta copy_list_meta p m).0
            ≡ as_object (shown_pointer m p))
          × (shown_pointer h p ≡ shown_pointer m p)
    unfolding deep_copy_list_object deep_copy_list unless_nil as_object
    deep_copy_list_object_shares_nothing none m g h live made before = (refl, refl)
    deep_copy_list_object_shares_nothing (some list) m g h live made before =
        let copying = deep_copy_list_into-IsDeepCopy in
        (
          ap (λ c. some (some c)) (copying.copies list m g live made),
          ap some (
              shown_list-IsReadable.shows m h list live
                (λ a lo hi. before a lo hi ∙ copying.keeps list m live a lo hi)),
        )
