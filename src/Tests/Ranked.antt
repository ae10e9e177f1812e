-- ===== src/Tests/Ranked.antt =====
-- The pods that use the most memory, with an insertion sort for sort.Slice.
use mathlib.Core.List.{Perm}
use mathlib.Core.List.Perm
use checkpoint_operator.Base.{
  ℕ, ◌≤◌, [], ◌∷◌, List, Bytes, codes, some, none, All, All-map, refl, ◌≡◌, Bool-cases, ltb,
  if◌then◌else◌, inl, inr, arith,
}
use checkpoint_operator.Outcome.{Outcome, ok}
use checkpoint_operator.Monitor.{ContainerUsage, PodUsage, Meter, get_top_five_pods_by_memory}
use checkpoint_operator.Monitor.Top.{
  IsDescending, Sorts, IsTopFive, measured, get_top_five_pods_by_memory-IsTopFive,
}
use checkpoint_operator.Tests.Monitored.{whole, fresh}
use checkpoint_operator.Tests.Sample.{cluster, web_pod, registry_pod}

abbrev put : PodUsage → List PodUsage → List PodUsage
put x [] = x ∷ []
put x (y ∷ ys) = if ltb x.usage y.usage then y ∷ put x ys else x ∷ y ∷ ys

abbrev sorted : List PodUsage → List PodUsage
sorted [] = []
sorted (x ∷ xs) = put x (sorted xs)

put-Perm : (x : PodUsage) (ys : List PodUsage) → Perm (put x ys) (x ∷ ys)
put-Perm x [] = Perm.refl (x ∷ [])
put-Perm x (y ∷ ys) = elim (Bool-cases (ltb x.usage y.usage)) [
  | inl e ↦ rw (e, if◌then◌else◌) (Perm.trans (Perm.cons y (put-Perm x ys)) (Perm.swap x y ys))
  | inr e ↦ rw (e, if◌then◌else◌) (Perm.refl (x ∷ y ∷ ys))
]

sorted-Perm : (xs : List PodUsage) → Perm (sorted xs) xs
sorted-Perm [] = Perm.refl []
sorted-Perm (x ∷ xs) = Perm.trans (put-Perm x (sorted xs)) (Perm.cons x (sorted-Perm xs))

put-below :
    (n : ℕ) (x : PodUsage) (ys : List PodUsage)
    → x.usage ≤ n
    → All (λ y. y.usage ≤ n) ys
    → All (λ y. y.usage ≤ n) (put x ys)
put-below n x [] h k = (h, tt)
put-below n x (y ∷ ys) h k = elim (Bool-cases (ltb x.usage y.usage)) [
  | inl e ↦ rw (e, if◌then◌else◌) (k.0, put-below n x ys h k.1)
  | inr e ↦ rw (e, if◌then◌else◌) (h, k)
]

put-IsDescending : (x : PodUsage) (ys : List PodUsage) → IsDescending ys → IsDescending (put x ys)
put-IsDescending x [] h = (tt, tt)
put-IsDescending x (y ∷ ys) h = elim (Bool-cases (ltb x.usage y.usage)) [
  | inl e ↦
      rw (e, if◌then◌else◌)
        (put-below y.usage x ys (ground (arith, e)) h.0, put-IsDescending x ys h.1)
  | inr e ↦
      rw (e, if◌then◌else◌) (((ground (arith, e)), All-map (λ z k. ground (arith, e, k)) ys h.0), h)
]

sorted-IsDescending : (xs : List PodUsage) → IsDescending (sorted xs)
sorted-IsDescending [] = tt
sorted-IsDescending (x ∷ xs) = put-IsDescending x (sorted xs) (sorted-IsDescending xs)

sorted-Sorts : Sorts sorted
sorted-Sorts = record { permutes = sorted-Perm; descends = λ items _. sorted-IsDescending items }

-- One container with memory, one without.
abbrev known : Bytes → Bytes → Outcome (List ContainerUsage)
known namespace name = ok (
    (record { cpu_cores = some 1; memory = some 1000 })
    ∷ (record { cpu_cores = none; memory = none })
    ∷ [])

abbrev ranked : Meter ℕ
ranked = record whole { pod_metrics = λ t. known; sort = sorted }

get_top_five_pods_by_memory-IsTopFive_example :
    (top : List PodUsage) × ((get_top_five_pods_by_memory cluster ranked
        (codes "n1")
        fresh
        []).outcome
      ≡ ok top)
    × IsTopFive (measured known (web_pod ∷ registry_pod ∷ [])) top
get_top_five_pods_by_memory-IsTopFive_example =
    get_top_five_pods_by_memory-IsTopFive cluster ranked known (λ t namespace name. refl)
      (λ namespace name e. cc) (codes "n1") (web_pod ∷ registry_pod ∷ []) fresh [] refl
      (omega arith, (omega arith, tt)) sorted-Sorts
