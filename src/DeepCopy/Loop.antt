-- ===== src/DeepCopy/Loop.antt =====
-- The loop over the items of a MigrationList: each is copied in turn into a new array.
use mathlib.Core.Path.{subst}
use mathlib.Core.List.{map-append, append-nil}
use checkpoint_operator.Base.{
  ℕ, suc, ◌+◌, ◌≤◌, ◌<◌, ◌≡◌, ◌≢◌, refl, sym, ap, ap₂, ◌∙◌, List, [], ◌∷◌, ◌++◌, append_assoc, some,
  length, length-append, All, arith,
}
use checkpoint_operator.DeepCopy.{
  Migration, migrations, Memory, migration_array, migrations_of, no_migration, element, copy_item,
  copy_items, deep_copy_items, deep_copy_migration_into, make,
}
use checkpoint_operator.DeepCopy.Memory.{
  Slice, Same, at, put, repeat, length-put, at-put, at-put_other, at-append_self, put-append_self,
  length-window,
}
use checkpoint_operator.DeepCopy.Laws.{IsReadable, IsDeepCopy}
use checkpoint_operator.DeepCopy.Spec.{Same-append}
use checkpoint_operator.DeepCopy.Items.{AreWithin, shown, migrations_of-Same}
use checkpoint_operator.DeepCopy.Single.{
  IsLiveMigration, shown_migration, shown_migration-IsReadable, deep_copy_migration_into-IsDeepCopy,
}

zero_plus : (n : ℕ) → 0 + n ≡ n
zero_plus n = omega arith

module _ {M V : Type 0} {view_meta : Memory M → M → V} {LiveMeta : Memory M → M → Type 0}
    (r : IsReadable view_meta LiveMeta) {copy_meta : M → Memory M → M × Memory M}
    (k : IsDeepCopy view_meta LiveMeta copy_meta) (no_meta : M) where
  abbrev pub Item : Type 0
  Item = Migration M Slice

  abbrev pub copied : Item → Memory M → Item × Memory M
  copied = deep_copy_migration_into copy_meta

  abbrev pub IsLive : Memory M → Item → Type 0
  IsLive = IsLiveMigration view_meta LiveMeta

  abbrev copying : IsDeepCopy (shown_migration view_meta LiveMeta) IsLive copied
  copying = deep_copy_migration_into-IsDeepCopy view_meta LiveMeta r k

  abbrev reading : IsReadable (shown_migration view_meta LiveMeta) IsLive
  reading = shown_migration-IsReadable view_meta LiveMeta r

  -- What is done shows in `g` what it showed in `m`; `todo` is left.
  pub record IsCopying (m : Memory M) (s : Slice) (done seen todo : List Item) (g : Memory M)
      : Type 0 where
    pub below : Same 0 (length m) g m
    pub longer : length m < length g
    pub array :
        at (length m) g ≡ some (migrations (done ++ repeat (length todo) (no_migration no_meta)))
    pub split : migrations_of m s ≡ seen ++ todo
    pub level : length done ≡ length seen
    pub live : All (IsLive m) todo
    pub shows :
        (h : Memory M)
        → Same (suc (length m)) (length g) h g
        → shown view_meta LiveMeta h done ≡ shown view_meta LiveMeta m seen

  abbrev pub fresh : Memory M → ℕ → Slice
  fresh m len = record { array = length m; start = 0; len = len }

  -- The memory once the item `x` is copied too.
  abbrev grown : Memory M → List Item → Item → List Item → Memory M → Memory M
  grown m done x todo g =
      let c = copied x g in
      put (length m)
        (migrations ((done ++ c.0 ∷ []) ++ repeat (length todo) (no_migration no_meta))) c.1

  module _ (m : Memory M) (s : Slice) (w : AreWithin view_meta LiveMeta m s)
      {done seen todo : List Item} {x : Item} {g : Memory M}
      (c : IsCopying m s done seen (x ∷ todo) g) where
    live_now : IsLive g x
    live_now = reading.stays m g x c.live.0 c.below (omega (arith, c.longer))

    next_item : at (length done) (migrations_of g s) ≡ some x
    next_item =
        ap (at (length done))
          (migrations_of-Same m g s (c.below s.array (omega arith) w.in_memory) ∙ c.split)
        ∙ ap (λ n. at n (seen ++ x ∷ todo)) c.level
        ∙ at-append_self seen x todo

    array_then : at (length m) (copied x g).1 ≡ at (length m) g
    array_then = copying.keeps x g live_now (length m) (omega arith) c.longer

    put_next :
        (y : Item)
        → put (length done) y (done ++ repeat (suc (length todo)) (no_migration no_meta))
          ≡ (done ++ y ∷ []) ++ repeat (length todo) (no_migration no_meta)
    put_next y = put-append_self done y _ _ ∙ sym (append_assoc done (y ∷ []) _)

    copy_item-eq :
        (i : ℕ)
        → i ≡ length done
        → copy_item copy_meta no_meta s (fresh m s.len) i g ≡ grown m done x todo g
    unfolding copy_item element
    copy_item-eq i e =
        rw (e, next_item, array_then, c.array)
          (ap (λ l. put (length m) (migrations l) (copied x g).1)
            (ap
                (λ j.
                  put j (copied x g).0 (done ++ repeat (suc (length todo)) (no_migration no_meta)))
                (zero_plus (length done))
              ∙ put_next (copied x g).0))

  module _ (m : Memory M) (s : Slice) (w : AreWithin view_meta LiveMeta m s)
      {done seen todo : List Item} {x : Item} {g : Memory M}
      (c : IsCopying m s done seen (x ∷ todo) g) where
    abbrev now : IsLive g x
    now = live_now m s w c

    abbrev result : Item × Memory M
    result = copied x g

    abbrev after : Memory M
    after = grown m done x todo g

    -- The copying of an item changes no array but that of the copies.
    after_below : (a : ℕ) → a < length g → a ≢ length m → at a after ≡ at a g
    after_below a hi ne =
        at-put_other (length m) a _ result.1 ne ∙ copying.keeps x g now a (omega arith) hi

    after_longer : length g ≤ length after
    after_longer = rw (length-put (length m) _ result.1) (copying.grows x g now)

    -- The copy shows what the item showed at first.
    shows_new :
        (h : Memory M)
        → Same (suc (length m)) (length after) h after
        → shown_migration view_meta LiveMeta h result.0 ≡ shown_migration view_meta LiveMeta m x
    shows_new h same =
        copying.copies x g h now (λ a lo hi.
          same a (omega (arith, c.longer)) (rw (length-put (length m) _ result.1) hi)
          ∙ at-put_other (length m) a _ result.1 (omega (arith, c.longer)))
        ∙ reading.shows m g x c.live.0 c.below

    grown-IsCopying : IsCopying m s (done ++ result.0 ∷ []) (seen ++ x ∷ []) todo after
    grown-IsCopying = record {
      below = λ a lo hi. after_below a (omega (arith, c.longer)) (omega arith) ∙ c.below a lo hi;
      longer = omega (arith, c.longer, after_longer);
      array = at-put (length m) _ result.1 (omega (arith, c.longer, copying.grows x g now));
      split = c.split ∙ sym (append_assoc seen (x ∷ []) todo);
      level = length-append done _ ∙ ap (λ n. n + 1) c.level ∙ sym (length-append seen _);
      live = c.live.1;
      shows = λ h same.
          map-append _ done _
          ∙ ap₂ (λ a b. a ++ b ∷ [])
              (c.shows h (λ a lo hi.
                same a lo (omega (arith, after_longer)) ∙ after_below a hi (omega arith)))
              (shows_new h same)
          ∙ sym (map-append _ seen _);
    }

  abbrev pub Finished : Memory M → Slice → List Item → Memory M → Type 0
  Finished m s seen g = (all : List Item) × IsCopying m s all seen [] g

  -- After the loop there is a copy of each item.
  loop_lem :
      (m : Memory M) (s : Slice) (w : AreWithin view_meta LiveMeta m s) (done seen todo : List Item)
      (i : ℕ) (g : Memory M)
      → i ≡ length done
      → IsCopying m s done seen todo g
      → Finished m s
          (seen ++ todo)
          (copy_items copy_meta no_meta s (fresh m s.len) (length todo) i g)
  unfolding copy_items
  loop_lem m s w done seen [] i g e c = (done, rw append-nil c)
  loop_lem m s w done seen (x ∷ todo) i g e c =
      subst
        (λ g'.
          Finished m s (seen ++ x ∷ todo)
            (copy_items copy_meta no_meta s (fresh m s.len) (length todo) (suc i) g'))
        (sym (copy_item-eq m s w c i e))
        (subst
          (λ l. Finished m s l (
            copy_items copy_meta no_meta s (fresh m s.len) (length todo) (suc i)
              (grown m done x todo g)))
          (append_assoc seen (x ∷ []) todo)
          (loop_lem m s w (done ++ (copied x g).0 ∷ []) (seen ++ x ∷ []) todo (suc i)
            (grown m done x todo g) (omega (arith, length-append done ((copied x g).0 ∷ [])))
            (grown-IsCopying m s w c)))

  start-IsCopying :
      (m : Memory M) (s : Slice)
      → AreWithin view_meta LiveMeta m s
      → IsCopying m s [] []
          (migrations_of m s)
          (m ++ migrations (repeat s.len (no_migration no_meta)) ∷ [])
  unfolding migrations_of
  start-IsCopying m s w = record {
    below = Same-append m _;
    longer = omega (arith, length-append m (migrations (repeat s.len (no_migration no_meta)) ∷ []));
    array =
        rw (length-window s (migration_array (at s.array m)) w.in_array) (at-append_self m _ []);
    split = refl;
    level = refl;
    live = w.each;
    shows = λ h same. refl;
  }

  -- What a run of the whole loop has made.
  pub deep_copy_items_lem :
      (m : Memory M) (s : Slice)
      → AreWithin view_meta LiveMeta m s
      → Finished m s (migrations_of m s) (deep_copy_items copy_meta no_meta (some s) m).1
  unfolding deep_copy_items make migrations_of
  deep_copy_items_lem m s w =
      subst
        (λ n. Finished m s (migrations_of m s) (
          copy_items copy_meta no_meta s (fresh m s.len) n 0
            (m ++ migrations (repeat s.len (no_migration no_meta)) ∷ [])))
        (length-window s (migration_array (at s.array m)) w.in_array)
        (loop_lem m s w [] [] (migrations_of m s) 0 _ refl (start-IsCopying m s w))
