-- ===== src/Tests/Copied.antt =====
-- A list of two Migrations, copied, where afterwards what was there before is changed.
use checkpoint_operator.Base.{
  ℕ, zero, suc, ◌≡◌, refl, [], ◌∷◌, Option, none, some, Bytes, codes, length, take, drop, arith,
}
use checkpoint_operator.DeepCopy.{
  Migration, MigrationList, texts, migrations, Memory, migrations_of, deep_copy_specify,
  deep_copy_list_object, as_object,
}
use checkpoint_operator.DeepCopy.Memory.{Slice, Same}
use checkpoint_operator.DeepCopy.Laws.{IsReadable, IsDeepCopy}
use checkpoint_operator.DeepCopy.Spec.{
  AreLive, shown_texts, shown_texts-IsReadable, deep_copy_specify-IsDeepCopy,
}
use checkpoint_operator.DeepCopy.Objects.{
  shown_object, shown_pointer, IsLivePointer, deep_copy_list_object_shares_nothing,
}

-- The metadata of an object is its list of finalizers, that of a list its resource version.
abbrev Meta : Type 0
Meta = Option Slice

abbrev shown_version : Memory Meta → Bytes → Bytes
shown_version m v = v

abbrev IsLiveVersion : Memory Meta → Bytes → Type 0
IsLiveVersion m v = Unit

abbrev copy_version : Bytes → Memory Meta → Bytes × Memory Meta
copy_version v m = (v, m)

shown_version-IsReadable : IsReadable shown_version IsLiveVersion
shown_version-IsReadable = record {
  shows = λ m g x live same. refl;
  stays = λ m g x live same longer. tt;
}

copy_version-IsDeepCopy : IsDeepCopy shown_version IsLiveVersion copy_version
copy_version-IsDeepCopy = record {
  grows = λ x m live. omega arith;
  keeps = λ x m live a lo hi. refl;
  copies = λ x m g live same. refl;
}

abbrev slice : ℕ → ℕ → ℕ → Slice
slice array start len = record { array = array; start = start; len = len }

abbrev one : Meta → Option Slice → Migration Meta Slice
one meta pods = record {
  type_meta = record { kind = codes "Migration"; api_version = codes "v1alpha1" };
  object_meta = meta;
  spec = record {
    pod_name = codes "web";
    deployment = [];
    namespace = codes "default";
    destination_node = codes "node2";
    destination_namespace = codes "default";
    specify = pods;
  };
  status = record {};
}

-- Both Migrations share the array of texts, the second shows its end alone.
abbrev before : Memory Meta
before =
    texts (codes "a" ∷ codes "b" ∷ [])
    ∷ migrations
        (one none (some (slice 0 0 2)) ∷ one (some (slice 0 1 1)) (some (slice 0 1 1)) ∷ [])
    ∷ []

abbrev two : MigrationList Bytes Slice
two = record {
  type_meta = record { kind = codes "MigrationList"; api_version = codes "v1alpha1" };
  list_meta = codes "7";
  items = some (slice 1 0 2);
}

abbrev after : Memory Meta
after = (deep_copy_list_object deep_copy_specify none copy_version (some two) before).1

-- Each array is copied, and the shared one once for each slice of it.
copies_made : length after ≡ 6
unfolding deep_copy_list_object
copies_made = refl

-- The old arrays are overwritten, then the new ones.
abbrev old_changed : Memory Meta
old_changed = texts [] ∷ migrations [] ∷ drop 2 after

abbrev new_changed : Memory Meta
new_changed = take 2 after

made_Same : Same 2 6 old_changed after
unfolding copies_made
made_Same zero lo hi = absurd (omega arith)
made_Same (suc zero) lo hi = absurd (omega arith)
made_Same (suc (suc a)) lo hi = refl

before_Same : Same 0 2 new_changed after
unfolding copies_made
before_Same zero lo hi = refl
before_Same (suc zero) lo hi = refl
before_Same (suc (suc a)) lo hi = absurd (omega arith)

two-IsLive : IsLivePointer shown_texts AreLive shown_version IsLiveVersion before (some two)
unfolding migrations_of
two-IsLive = (
  tt,
  record {
    in_memory = omega arith;
    in_array = omega arith;
    each = (
      (tt, record { in_memory = omega arith; in_array = omega arith }),
      (
        (
          record { in_memory = omega arith; in_array = omega arith },
          record { in_memory = omega arith; in_array = omega arith },
        ),
        tt,
      ),
    );
  },
)

deep_copy_list_object_shares_nothing_example :
    (shown_object shown_texts AreLive shown_version IsLiveVersion old_changed
        (deep_copy_list_object deep_copy_specify none copy_version (some two) before).0
      ≡ as_object (shown_pointer shown_texts AreLive shown_version IsLiveVersion before (some two)))
    × (shown_pointer shown_texts AreLive shown_version IsLiveVersion new_changed (some two)
        ≡ shown_pointer shown_texts AreLive shown_version IsLiveVersion before (some two))
unfolding copies_made
deep_copy_list_object_shares_nothing_example =
    deep_copy_list_object_shares_nothing shown_texts AreLive shown_version IsLiveVersion
      shown_texts-IsReadable shown_version-IsReadable deep_copy_specify-IsDeepCopy
      copy_version-IsDeepCopy none (some two) before old_changed new_changed two-IsLive made_Same
      before_Same
