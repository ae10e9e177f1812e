-- ===== src/DeepCopy.antt =====
-- The API types of practice/api/v1alpha1/migration_types.go, with the arrays that their slices
-- share, and the copying of practice/api/v1alpha1/zz_generated.deepcopy.go.
pub mod Memory
pub mod Laws
pub mod Spec
pub mod Single
pub mod Items
pub mod Loop
pub mod Objects
use checkpoint_operator.Base.{
  ℕ, zero, suc, ◌+◌, List, [], ◌∷◌, ◌++◌, Option, none, some, Bytes, length, take, drop,
}
use checkpoint_operator.DeepCopy.Memory.{Slice, at, overwrite, put, repeat, window}

pub record TypeMeta : Type 0 where
  pub kind : Bytes
  pub api_version : Bytes

-- `S` is what its slice is: where it lies in memory, or the texts that it shows.
pub record MigrationSpec (S : Type 0) : Type 0 where
  pub pod_name : Bytes
  pub deployment : Bytes
  pub namespace : Bytes
  pub destination_node : Bytes
  pub destination_namespace : Bytes
  pub specify : Option S

pub record MigrationStatus : Type 0 where

-- `M` is what its metadata is.
pub record Migration (M S : Type 0) : Type 0 where
  pub type_meta : TypeMeta
  pub object_meta : M
  pub spec : MigrationSpec S
  pub status : MigrationStatus

pub record MigrationList (M S : Type 0) : Type 0 where
  pub type_meta : TypeMeta
  pub list_meta : M
  pub items : Option S

-- An array is of texts, or of Migrations.
pub data Array (M : Type 0) : Type 0 where
  texts : List Bytes → Array M
  migrations : List (Migration M Slice) → Array M

abbrev pub Memory : Type 0 → Type 0
Memory M = List (Array M)

-- An interface value is nil, or holds a pointer, which may be nil itself.
unfoldable pub as_object : {A : Type 0} → Option A → Option (Option A)
as_object (some c) = some (some c)
as_object none = none

module _ {M : Type 0} where
  abbrev pub text_array : Option (Array M) → List Bytes
  text_array (some (texts xs)) = xs
  text_array _ = []

  abbrev pub migration_array : Option (Array M) → List (Migration M Slice)
  migration_array (some (migrations xs)) = xs
  migration_array _ = []

  -- What a slice of texts shows.
  unfoldable pub texts_of : Memory M → Slice → List Bytes
  texts_of m s = window s (text_array (at s.array m))

  -- What a slice of Migrations shows.
  unfoldable pub migrations_of : Memory M → Slice → List (Migration M Slice)
  migrations_of m s = window s (migration_array (at s.array m))

  -- A new array comes after the others.
  unfoldable pub make : Array M → ℕ → Memory M → Slice × Memory M
  make xs n m = (record { array = length m; start = 0; len = n }, m ++ xs ∷ [])

  -- The built-in `copy` for slices of texts.
  unfoldable pub copy_texts : Slice → Slice → Memory M → Memory M
  unfolding texts_of
  copy_texts dst src m =
      let new = overwrite dst.start (take dst.len (texts_of m src)) (text_array (at dst.array m)) in
      put dst.array (texts new) m

  unfoldable pub deep_copy_specify : Option Slice → Memory M → Option Slice × Memory M
  unfolding make copy_texts
  deep_copy_specify none m = (none, m)
  deep_copy_specify (some s) m =
      let made = make (texts (repeat s.len [])) s.len m in (some made.0, copy_texts made.0 s made.1)

  -- DeepCopyInto of a MigrationSpec. What `out` points at is overwritten whole at first, so it is
  -- only a result.
  unfoldable pub deep_copy_spec_into :
      MigrationSpec Slice → Memory M → MigrationSpec Slice × Memory M
  unfolding deep_copy_specify
  deep_copy_spec_into spec m =
      let copied = deep_copy_specify spec.specify m in
      (record spec { specify = copied.0 }, copied.1)

  -- A copying function behind the test for a nil pointer.
  unfoldable pub unless_nil :
      {A : Type 0} → (A → Memory M → A × Memory M) → Option A → Memory M → Option A × Memory M
  unless_nil copy none m = (none, m)
  unless_nil copy (some x) m = let copied = copy x m in (some copied.0, copied.1)

  -- DeepCopy of a MigrationSpec; no pointer is `none`.
  unfoldable pub deep_copy_spec :
      Option (MigrationSpec Slice) → Memory M → Option (MigrationSpec Slice) × Memory M
  unfolding unless_nil deep_copy_spec_into
  deep_copy_spec = unless_nil deep_copy_spec_into

  unfoldable pub deep_copy_status_into : MigrationStatus → Memory M → MigrationStatus × Memory M
  deep_copy_status_into status m = (status, m)

  unfoldable pub deep_copy_status :
      Option MigrationStatus → Memory M → Option MigrationStatus × Memory M
  unfolding unless_nil deep_copy_status_into
  deep_copy_status = unless_nil deep_copy_status_into

  -- `no_meta` is an ObjectMeta of zeros.
  module _ (no_meta : M) where
    pub no_migration : Migration M Slice
    no_migration = record {
      type_meta = record { kind = []; api_version = [] };
      object_meta = no_meta;
      spec = record {
        pod_name = [];
        deployment = [];
        namespace = [];
        destination_node = [];
        destination_namespace = [];
        specify = none;
      };
      status = record {};
    }

    -- A slice within its array has all its elements.
    element : Option (Migration M Slice) → Migration M Slice
    unfolding no_migration
    element (some x) = x
    element none = no_migration

  -- `copy_meta` is metav1.ObjectMeta.DeepCopyInto.
  module _ (copy_meta : M → Memory M → M × Memory M) where
    unfoldable pub deep_copy_migration_into :
        Migration M Slice → Memory M → Migration M Slice × Memory M
    unfolding deep_copy_spec_into
    deep_copy_migration_into mig m =
        let meta = copy_meta mig.object_meta m in
        let spec = deep_copy_spec_into mig.spec meta.1 in
        (record mig { object_meta = meta.0; spec = spec.0 }, spec.1)

    unfoldable pub deep_copy_migration :
        Option (Migration M Slice) → Memory M → Option (Migration M Slice) × Memory M
    unfolding unless_nil deep_copy_migration_into
    deep_copy_migration = unless_nil deep_copy_migration_into

    unfoldable pub deep_copy_migration_object :
        Option (Migration M Slice) → Memory M → Option (Option (Migration M Slice)) × Memory M
    unfolding deep_copy_migration as_object
    deep_copy_migration_object x m =
        let copied = deep_copy_migration x m in (as_object copied.0, copied.1)

    module _ (no_meta : M) where
      -- `(*in)[i].DeepCopyInto(&(*out)[i])`
      copy_item : Slice → Slice → ℕ → Memory M → Memory M
      unfolding element migrations_of deep_copy_migration_into
      copy_item src dst i m =
          let copied = deep_copy_migration_into (element no_meta (at i (migrations_of m src))) m in
          let items = migration_array (at dst.array copied.1) in
          put dst.array (migrations (put (dst.start + i) copied.0 items)) copied.1

      -- The loop, with the number of items that are left and the place of the next.
      pub copy_items : Slice → Slice → ℕ → ℕ → Memory M → Memory M
      unfolding copy_item
      copy_items src dst zero i m = m
      copy_items src dst (suc n) i m = copy_items src dst n (suc i) (copy_item src dst i m)

      pub deep_copy_items : Option Slice → Memory M → Option Slice × Memory M
      unfolding make copy_items no_migration
      deep_copy_items none m = (none, m)
      deep_copy_items (some s) m =
          let made = make (migrations (repeat s.len (no_migration no_meta))) s.len m in
          (some made.0, copy_items s made.0 s.len 0 made.1)

      -- `copy_list_meta` is metav1.ListMeta.DeepCopyInto.
      module _ {L : Type 0} (copy_list_meta : L → Memory M → L × Memory M) where
        unfoldable pub deep_copy_list_into :
            MigrationList L Slice → Memory M → MigrationList L Slice × Memory M
        unfolding deep_copy_items
        deep_copy_list_into list m =
            let meta = copy_list_meta list.list_meta m in
            let items = deep_copy_items list.items meta.1 in
            (record list { list_meta = meta.0; items = items.0 }, items.1)

        unfoldable pub deep_copy_list :
            Option (MigrationList L Slice) → Memory M → Option (MigrationList L Slice) × Memory M
        unfolding unless_nil deep_copy_list_into
        deep_copy_list = unless_nil deep_copy_list_into

        unfoldable pub deep_copy_list_object :
            Option (MigrationList L Slice)
            → Memory M
            → Option (Option (MigrationList L Slice)) × Memory M
        unfolding deep_copy_list as_object
        deep_copy_list_object x m =
            let copied = deep_copy_list x m in (as_object copied.0, copied.1)
