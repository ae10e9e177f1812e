-- ===== src/Util/Globals.antt =====
-- practice/util/global.go: the pods whose migration is under way, by name.
use checkpoint_operator.Base.{
  List, [], ◌∷◌, Option, none, some, Bool, true, false, Bytes, ◌=s◌, =s_iff, =s_refl, if◌then◌else◌,
  is_some, ◌≡◌, arith,
}

pub record MigrationInfo : Type 0 where
  pub pod_name : Bytes
  pub deployment : Bytes
  pub source_namespace : Bytes
  pub destination_node : Bytes
  pub destination_namespace : Bytes
  pub specify : List Bytes

-- ProcessPodsMap: a Go map, as a list of entries. No entry is ever read by its place.
abbrev pub PodsMap : Type 0
PodsMap = List (Bytes × MigrationInfo)

-- `m[k]` with the comma-ok form
unfoldable pub lookup : Bytes → PodsMap → Option MigrationInfo
lookup k [] = none
lookup k ((j, v) ∷ m) = if j =s k then some v else lookup k m

-- `delete(m, k)`
unfoldable pub remove : Bytes → PodsMap → PodsMap
remove k [] = []
remove k ((j, v) ∷ m) = if j =s k then remove k m else (j, v) ∷ remove k m

-- `m[k] = v`
unfoldable pub insert : Bytes → MigrationInfo → PodsMap → PodsMap
insert k v m = (k, v) ∷ remove k m

-- `_, ok := m[k]`
abbrev pub contains : Bytes → PodsMap → Bool
contains k m = is_some (lookup k m)

pub lookup-remove :
    (k j : Bytes) (m : PodsMap) → lookup j (remove k m) ≡ (if k =s j then none else lookup j m)
unfolding lookup remove
lookup-remove k j [] = ground arith
lookup-remove k j ((i, v) ∷ m) =
    ground (arith, lookup-remove k j m, =s_iff i k, =s_iff i j, =s_iff k j)

pub lookup-insert :
    (k j : Bytes) (v : MigrationInfo) (m : PodsMap)
    → lookup j (insert k v m) ≡ (if k =s j then some v else lookup j m)
unfolding lookup insert
lookup-insert k j v m = ground (arith, lookup-remove k j m)

-- FillinGlobalVariables. The field PodName of the entry is left empty.
unfoldable pub fill_in_global_variables :
    Bytes → Bytes → Bytes → Bytes → Bytes → List Bytes → PodsMap → PodsMap
unfolding insert
fill_in_global_variables name deployment source node namespace specify = insert name (record {
  pod_name = [];
  deployment = deployment;
  source_namespace = source;
  destination_node = node;
  destination_namespace = namespace;
  specify = specify;
})

-- Filling in an entry overwrites that of its pod and leaves the others.
pub contains-fill_in_self :
    (k d n o p : Bytes) (q : List Bytes) (m : PodsMap)
    → contains k (fill_in_global_variables k d n o p q m) ≡ true
unfolding fill_in_global_variables
contains-fill_in_self k d n o p q m = rw (lookup-insert, =s_refl)

pub contains-fill_in :
    (j k d n o p : Bytes) (q : List Bytes) (m : PodsMap)
    → contains j m ≡ true
    → contains j (fill_in_global_variables k d n o p q m) ≡ true
unfolding fill_in_global_variables
contains-fill_in j k d n o p q m h = rw lookup-insert (ground (arith, h))

pub contains-remove_self : (k : Bytes) (m : PodsMap) → contains k (remove k m) ≡ false
contains-remove_self k m = rw (lookup-remove, =s_refl)
