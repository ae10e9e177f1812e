-- ===== src/Monitor/Top.antt =====
-- The pods that use the most memory of a node.
use mathlib.Core.List.{Perm}
use checkpoint_operator.Base.{
  ℕ, zero, suc, ◌+◌, ◌≤◌, ◌<◌, Bool-cases, List, [], ◌∷◌, ◌++◌, Option, none, some, Bytes, ◌≡◌, ◌≢◌,
  refl, sym, inl, inr, arith, All, All-drop, take-drop, length-take, length, take, drop,
  length-take-le, ltb, append_assoc, append-nil, ap, if◌then◌else◌,
}
use checkpoint_operator.Outcome.{Outcome, ok, err, panic}
use checkpoint_operator.Cluster.{Env, Pod, Trace, on_node, list_pods, get_pod_metrics}
use checkpoint_operator.Proc.{◌>>=◌, on_error, call, branch, return}
use checkpoint_operator.Monitor.{
  ContainerUsage, PodUsage, Meter, Rates, add_usage, total_usage, collect, list_on_node,
  get_top_five_pods_by_memory,
}

abbrev amount : Option ℕ → ℕ
amount none = 0
amount (some n) = n

-- The memory of the containers whose entry has it, added up with no bound.
abbrev pub memory_of : List ContainerUsage → ℕ
memory_of [] = 0
memory_of (c ∷ cs) = amount c.memory + memory_of cs

abbrev add_measured : Pod → Outcome (List ContainerUsage) → List PodUsage → List PodUsage
add_measured p (ok cs) items = (record { pod = p; usage = memory_of cs }) ∷ items
add_measured p (err e) items = items
add_measured p panic items = items

-- The pods whose metrics are known, with their memory.
abbrev pub measured : (Bytes → Bytes → Outcome (List ContainerUsage)) → List Pod → List PodUsage
measured metrics [] = []
measured metrics (p ∷ ps) = add_measured p (metrics p.namespace p.name) (measured metrics ps)

-- The sum fits into an int64.
abbrev pub Fits : PodUsage → Type 0
Fits item = item.usage < 9223372036854775808

abbrev pub IsDescending : List PodUsage → Type 0
IsDescending [] = Unit
IsDescending (x ∷ xs) = All (λ y. y.usage ≤ x.usage) xs × IsDescending xs

-- What is relied on of sort.Slice: it permutes, and sorts by the comparison it is given.
pub record Sorts (sort : List PodUsage → List PodUsage) : Type 0 where
  pub permutes : (items : List PodUsage) → Perm (sort items) items
  pub descends : (items : List PodUsage) → All Fits items → IsDescending (sort items)

-- Some items are the largest five of `items`, or all of them.
pub record IsTopFive (items top : List PodUsage) : Type 0 where
  pub rest : List PodUsage
  pub none_lost : Perm (top ++ rest) items
  pub at_most : length top ≤ 5
  pub full : rest ≢ [] → length top ≡ 5
  pub largest : All (λ x. All (λ y. y.usage ≤ x.usage) rest) top

add_usage_lem :
    (total : ℕ) (o : Option ℕ)
    → (total + amount o) < 9223372036854775808
    → add_usage total o ≡ total + amount o
unfolding add_usage
add_usage_lem total none h = omega arith
add_usage_lem total (some n) h = omega arith

total_usage_lem :
    (total : ℕ) (cs : List ContainerUsage)
    → (total + memory_of cs) < 9223372036854775808
    → total_usage (λ c. c.memory) total cs ≡ total + memory_of cs
unfolding total_usage
total_usage_lem total [] h = omega arith
total_usage_lem total (c ∷ cs) h =
    rw
      (
        add_usage_lem total c.memory (omega arith),
        total_usage_lem (total + amount c.memory) cs (omega arith),
      )
      (omega arith)

total_memory :
    (cs : List ContainerUsage)
    → memory_of cs < 9223372036854775808
    → total_usage (λ c. c.memory) 0 cs ≡ memory_of cs
total_memory cs h = omega (arith, total_usage_lem 0 cs)

-- What is cut off is not larger than what is kept.
descending_split :
    (n : ℕ) (items : List PodUsage)
    → IsDescending items
    → All (λ x. All (λ y. y.usage ≤ x.usage) (drop n items)) (take n items)
descending_split zero items h = tt
descending_split (suc n) [] h = tt
descending_split (suc n) (x ∷ xs) h = (All-drop _ n xs h.0, descending_split n xs h.1)

first_five : List PodUsage → List PodUsage
first_five sorted = if ltb 5 (length sorted) then take 5 sorted else sorted

All-nil :
    (items : List PodUsage)
    → All (λ (x : PodUsage). All (λ (y : PodUsage). y.usage ≤ x.usage) []) items
All-nil [] = tt
All-nil (x ∷ xs) = (tt, All-nil xs)

first_five-IsTopFive :
    (items sorted : List PodUsage)
    → Perm sorted items
    → IsDescending sorted
    → IsTopFive items (first_five sorted)
unfolding first_five
first_five-IsTopFive items sorted permuted descends = elim (Bool-cases (ltb 5 (length sorted))) [
  | inl e ↦
      rw (e, if◌then◌else◌)
        (record {
          rest = drop 5 sorted;
          none_lost = rw (take-drop 5 sorted) permuted;
          at_most = length-take-le 5 sorted;
          full = λ _. length-take 5 sorted (ground (arith, e));
          largest = descending_split 5 sorted descends;
        })
  | inr e ↦
      rw (e, if◌then◌else◌)
        (record {
          rest = [];
          none_lost = rw (append-nil sorted) permuted;
          at_most = ground (arith, e);
          full = λ some_rest. absurd (some_rest refl);
          largest = All-nil sorted;
        })
]

module _ {Rate : Type 0} (env : Env) (meter : Meter Rate)
    (metrics : Bytes → Bytes → Outcome (List ContainerUsage))
    (known : (t : Trace) (namespace name : Bytes)
      → meter.pod_metrics t namespace name ≡ metrics namespace name)
    (answers : (namespace name : Bytes) → metrics namespace name ≢ panic) where
  collect_from :
      (found : List PodUsage) (p : Pod) (ps : List Pod) (s : Rates Rate) (t : Trace)
      → collect env meter (λ c. c.memory) found (p ∷ ps) s t
        ≡ branch
            (metrics p.namespace p.name)
            (λ _. collect env meter (λ c. c.memory) found ps)
            (λ cs.
              collect env meter
                (λ c. c.memory)
                (found ++ (record { pod = p; usage = total_usage (λ c. c.memory) 0 cs }) ∷ [])
                ps)
            s
            (get_pod_metrics p.namespace p.name ∷ t)
  unfolding collect on_error call
  collect_from found p ps s t = rw (known t p.namespace p.name) refl

  -- The whole loop over the pods does so.
  abbrev Collects : List Pod → Type 0
  Collects pods =
      (found : List PodUsage) (s : Rates Rate) (t : Trace)
      → All Fits (measured metrics pods)
      → (collect env meter (λ c. c.memory) found pods s t).outcome
        ≡ ok (found ++ measured metrics pods)

  collect-known :
      (p : Pod) (ps : List Pod) (r : Outcome (List ContainerUsage))
      → r ≢ panic
      → Collects ps
      → (found : List PodUsage) (s : Rates Rate) (t : Trace)
      → All Fits (add_measured p r (measured metrics ps))
      → (branch r
          (λ _. collect env meter (λ c. c.memory) found ps)
          (λ cs.
            collect env meter
              (λ c. c.memory)
              (found ++ (record { pod = p; usage = total_usage (λ c. c.memory) 0 cs }) ∷ [])
              ps)
          s
          t).outcome
        ≡ ok (found ++ add_measured p r (measured metrics ps))
  collect-known p ps (ok cs) n next found s t h =
      rw
        (
          total_memory cs h.0,
          next (found ++ (record { pod = p; usage = memory_of cs }) ∷ []) s t h.1,
          append_assoc,
        )
        refl
  collect-known p ps (err e) n next found s t h = next found s t h
  collect-known p ps panic n next found s t h = absurd (n refl)

  collect-measured : (pods : List Pod) → Collects pods
  unfolding collect return
  collect-measured [] found s t h = ap ok (sym (append-nil found))
  collect-measured (p ∷ ps) found s t h = rw (collect_from found p ps s t) (
      collect-known p ps (metrics p.namespace p.name) (answers p.namespace p.name)
        (collect-measured ps) found s (get_pod_metrics p.namespace p.name ∷ t) h)

  -- Where the pods of a node are listed, the metrics of a pod are known or an error, its memory fits
  -- into an int64, and the sort sorts: the run returns the five pods of the node, or all if they are
  -- fewer, that use the most memory among those with metrics; each other one is still in the rest.
  pub get_top_five_pods_by_memory-IsTopFive :
      (name : Bytes) (pods : List Pod) (s : Rates Rate) (t : Trace)
      → env.list_pods t (on_node name) ≡ ok pods
      → All Fits (measured metrics pods)
      → Sorts meter.sort
      → (top : List PodUsage) × ((get_top_five_pods_by_memory env meter name s t).outcome ≡ ok top)
        × IsTopFive (measured metrics pods) top
  unfolding get_top_five_pods_by_memory list_on_node ◌>>=◌ on_error call return first_five
  get_top_five_pods_by_memory-IsTopFive name pods s t listed fits sorts =
      let items = measured metrics pods in
      (
        first_five (meter.sort items),
        rw (listed, collect-measured pods [] s (list_pods (on_node name) ∷ t) fits) refl,
        first_five-IsTopFive items (meter.sort items) (sorts.permutes items)
            (sorts.descends items fits),
      )
