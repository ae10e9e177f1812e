-- ===== src/DeepCopy/Single.antt =====
-- DeepCopyInto and DeepCopy of one Migration: first its metadata, then its spec.
use checkpoint_operator.Base.{ap, List, Bytes}
use checkpoint_operator.DeepCopy.{MigrationSpec, Migration, Memory, deep_copy_migration_into}
use checkpoint_operator.DeepCopy.Memory.{Slice}
use checkpoint_operator.DeepCopy.Laws.{
  IsReadable, IsDeepCopy, AreBoth, view_both, both-IsReadable, both-IsDeepCopy,
}
use checkpoint_operator.DeepCopy.Spec.{
  IsLiveSpec, shown_spec, shown_spec-IsReadable, deep_copy_spec_into-IsDeepCopy,
}

module _ {M V : Type 0} (view_meta : Memory M → M → V) (LiveMeta : Memory M → M → Type 0) where
  abbrev pub IsLiveMigration : Memory M → Migration M Slice → Type 0
  IsLiveMigration m mig = AreBoth LiveMeta IsLiveSpec m (mig.object_meta, mig.spec)

  abbrev with_parts : {N S : Type 0} → Migration M Slice → N × MigrationSpec S → Migration N S
  with_parts mig p = record {
    type_meta = mig.type_meta;
    object_meta = p.0;
    spec = p.1;
    status = mig.status;
  }

  abbrev pub shown_migration : Memory M → Migration M Slice → Migration V (List Bytes)
  shown_migration m mig =
      with_parts mig (view_both view_meta shown_spec m (mig.object_meta, mig.spec))

  module _ (r : IsReadable view_meta LiveMeta) where
    pub shown_migration-IsReadable : IsReadable shown_migration IsLiveMigration
    shown_migration-IsReadable =
        let both = both-IsReadable r shown_spec-IsReadable in
        record {
          shows = λ m g mig live same.
              ap (with_parts mig) (both.shows m g (mig.object_meta, mig.spec) live same);
          stays = λ m g mig. both.stays m g (mig.object_meta, mig.spec);
        }

    module _ {copy_meta : M → Memory M → M × Memory M}
        (k : IsDeepCopy view_meta LiveMeta copy_meta) where
      pub deep_copy_migration_into-IsDeepCopy :
          IsDeepCopy shown_migration IsLiveMigration (deep_copy_migration_into copy_meta)
      unfolding deep_copy_migration_into
      deep_copy_migration_into-IsDeepCopy =
          let both = both-IsDeepCopy r shown_spec-IsReadable k deep_copy_spec_into-IsDeepCopy in
          record {
            grows = λ mig. both.grows (mig.object_meta, mig.spec);
            keeps = λ mig. both.keeps (mig.object_meta, mig.spec);
            copies = λ mig m g live same.
                ap (with_parts mig) (both.copies (mig.object_meta, mig.spec) m g live same);
          }
