-- ===== src/Migration/Filter.antt =====
-- Which pods a Migration takes, in each of the three ways to name them.
use checkpoint_operator.Base.{
  List, [], ◌∷◌, ◌++◌, none, some, Bool, true, false, not, ◌||◌, Bytes, is_empty, ◌=s◌, has_prefix,
  if◌then◌else◌, select, all, ◌≡◌, refl, ap, arith, append-nil, append_assoc,
}
use checkpoint_operator.Outcome.{ok, err}
use checkpoint_operator.Cluster.{Env, Pod, MigrationSpec, Query, everywhere, Trace, list_pods}
use checkpoint_operator.Proc.{◌>>=◌, continue, for_each, modify}
use checkpoint_operator.Util.Globals.{PodsMap}
use checkpoint_operator.Migration.{
  keep_named, append_named, keep_specified, keep_prefixed, pod_not_found, found_or_error,
  next_named, filter_pods, fill_in_pod,
}

abbrev pub is_named : Bytes → Pod → Bool
is_named name p = p.name =s name

-- The last of some pods, alone; without any, `default`.
abbrev pub last_or : List Pod → List Pod → List Pod
last_or default [] = default
last_or default (p ∷ ps) = last_or (p ∷ []) ps

-- The pods that some names find, name by name.
abbrev pub gather : List Pod → List Bytes → List Pod
gather items [] = []
gather items (name ∷ names) = select (is_named name) items ++ gather items names

abbrev pub is_found : List Pod → Bytes → Bool
is_found items name = not (is_empty (select (is_named name) items))

pub keep_named-eq :
    (name : Bytes) (kept items : List Pod)
    → keep_named name kept items ≡ last_or kept (select (is_named name) items)
unfolding keep_named
keep_named-eq name kept [] = refl
keep_named-eq name kept (p ∷ ps) =
    ground (arith, keep_named-eq name kept ps, keep_named-eq name (p ∷ []) ps)

append_named-eq :
    (name : Bytes) (kept : List Pod) (found : Bool) (items : List Pod)
    → append_named name kept found items
      ≡ (kept ++ select (is_named name) items, found || is_found items name)
unfolding append_named
append_named-eq name kept found [] = ground (arith, append-nil kept)
append_named-eq name kept found (p ∷ ps) = ground (
  arith,
  append_named-eq name kept found ps,
  append_named-eq name (kept ++ p ∷ []) true ps,
  append_assoc kept (p ∷ []) (select (is_named name) ps),
)

keep_specified-eq :
    (items kept : List Pod) (names : List Bytes)
    → keep_specified items kept names
      ≡ (if all (is_found items) names then ok (kept ++ gather items names) else err pod_not_found)
unfolding keep_specified found_or_error next_named
keep_specified-eq items kept [] = rw append-nil
keep_specified-eq items kept (name ∷ names) = ground (
  arith,
  append_named-eq name kept false items,
  keep_specified-eq items (kept ++ select (is_named name) items) names,
  append_assoc kept (select (is_named name) items) (gather items names),
)

keep_prefixed-eq :
    (prefix : Bytes) (kept items : List Pod)
    → keep_prefixed prefix kept items ≡ kept ++ select (λ p. has_prefix p.name prefix) items
unfolding keep_prefixed
keep_prefixed-eq prefix kept [] = rw append-nil
keep_prefixed-eq prefix kept (p ∷ ps) = ground (
  arith,
  keep_prefixed-eq prefix kept ps,
  keep_prefixed-eq prefix (kept ++ p ∷ []) ps,
  append_assoc kept (p ∷ []) (select (λ p. has_prefix p.name prefix) ps),
)

module _ (env : Env) (spec : MigrationSpec) (s : PodsMap) (t : Trace) where
  -- With no list options, and where the listing succeeds, the pods of all namespaces are listed.
  -- The last pod of the spec's name is taken; if no pod has that name, every pod that is listed
  -- is.
  pub filter_pods_named :
      (specified : Bool) (items : List Pod)
      → env.list_pods t everywhere ≡ ok items
      → (filter_pods env spec none specified s t).outcome
        ≡ ok (last_or items (select (is_named spec.pod_name) items))
  unfolding filter_pods ◌>>=◌
  filter_pods_named specified items e =
      rw (e, continue) (ap ok (keep_named-eq spec.pod_name items items))

  -- With a list of names, and where the listing succeeds, the pods of each name are taken, in the
  -- order of the names, if each name has a pod; else the filter fails.
  pub filter_pods_specified :
      (query : Query) (items : List Pod)
      → env.list_pods t query ≡ ok items
      → (filter_pods env spec (some query) true s t).outcome ≡ (
          if all (is_found items) spec.specify
          then ok (gather items spec.specify)
          else err pod_not_found)
  unfolding filter_pods ◌>>=◌
  filter_pods_specified query items e = rw (e, continue) (keep_specified-eq items [] spec.specify)

fill_in_each :
    (env : Env) (spec : MigrationSpec) (items : List Pod) (s : PodsMap) (t : Trace)
    → (for_each items (fill_in_pod env spec) s t).outcome ≡ ok tt
unfolding for_each fill_in_pod ◌>>=◌ modify
fill_in_each env spec [] s t = refl
fill_in_each env spec (p ∷ ps) s t = fill_in_each env spec ps _ t

-- With list options but no list of names, and where the listing succeeds, those listed pods are
-- taken whose name begins with the spec's pod name.
pub filter_pods_selected :
    (env : Env) (spec : MigrationSpec) (s : PodsMap) (t : Trace) (query : Query) (items : List Pod)
    → env.list_pods t query ≡ ok items
    → (filter_pods env spec (some query) false s t).outcome
      ≡ ok (select (λ p. has_prefix p.name spec.pod_name) items)
unfolding filter_pods ◌>>=◌
filter_pods_selected env spec s t query items e =
    rw (e, continue)
      (rw (fill_in_each env spec items s (list_pods query ∷ t), continue)
        (ap ok (keep_prefixed-eq spec.pod_name [] items)))
