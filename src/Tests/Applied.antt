-- ===== src/Tests/Applied.antt =====
-- Two pods of a loaded node, whose Migrations have one name.
use checkpoint_operator.Base.{
  ℕ, zero, suc, List, [], ◌∷◌, ◌++◌, Option, none, some, Bool, true, false, ◌&&◌, Bytes, codes,
  ◌=s◌, =s_refl, =s→eq, if◌then◌else◌, map, split, split-append, Lacks, ◌≡◌, ◌≢◌, refl, sym, ap,
  ap₂, ◌∙◌, inl, inr, Bool-cases,
}
use checkpoint_operator.Outcome.{ok}
use checkpoint_operator.Cluster.{Pod}
use checkpoint_operator.Proc.{for_each}
use checkpoint_operator.Monitor.{check_is_valid_namespace}
use checkpoint_operator.ServerSideApply.{Object, Key, Patch, Host, move_pod}
use checkpoint_operator.ServerSideApply.Yaml.{is_plain, is_stamp}
use checkpoint_operator.ServerSideApply.Overwritten.{sample, value_of, Serves, last_pod_remains}
use checkpoint_operator.Tests.Parsed.{parse, parse-document, both_true}
use checkpoint_operator.Tests.Sample.{web_pod, registry_pod}

abbrev noon : Bytes
noon = codes "20241112-120000"

abbrev api_pod : Pod
api_pod = record web_pod { name = codes "api" }

abbrev target : Bytes
target = codes "n3"

-- The fields of an object, each byte one up, with a zero after each text.
encode : List (Bytes × Bytes) → Bytes
encode [] = []
encode ((f, v) ∷ fields) = map suc f ++ (0 ∷ (map suc v ++ (0 ∷ encode fields)))

down : ℕ → ℕ
down zero = zero
down (suc n) = n

find : Bytes → List Bytes → Option Bytes
unfolding down
find f [] = none
find f (g ∷ []) = none
find f (g ∷ v ∷ more) = if map down g =s f then some (map down v) else find f more

down-map : (s : Bytes) → map down (map suc s) ≡ s
unfolding down
down-map [] = refl
down-map (b ∷ s) = ap (λ s. b ∷ s) (down-map s)

map-suc-Lacks : (s : Bytes) → Lacks 0 (map suc s)
map-suc-Lacks [] = tt
map-suc-Lacks (b ∷ s) = (λ e. cc, map-suc-Lacks s)

find-encode :
    (f : Bytes) (fields : List (Bytes × Bytes))
    → find f (split (encode fields) 0) ≡ value_of f fields
unfolding find encode split
find-encode f [] = refl
find-encode f ((g, v) ∷ fields) =
    rw
      (
        split-append (map suc g) (map suc v ++ (0 ∷ encode fields)) 0 (map-suc-Lacks g),
        split-append (map suc v) (encode fields) 0 (map-suc-Lacks v),
        down-map g,
        down-map v,
        find-encode f fields,
      )
      refl

-- It decodes and encodes by the texts, and takes every request.
abbrev server : Host
server = record {
  new_discovery_client = λ sent. ok tt;
  new_dynamic_client = λ sent. ok tt;
  now = λ sent. noon;
  decode = parse;
  rest_mapping = λ sent group kind version.
      ok (record { resource = codes "migrations"; scope_name = codes "namespace" });
  marshal = λ o. ok (encode o.spec);
  patch = λ sent p. ok tt;
}

same_namespace : Option Bytes → Option Bytes → Bool
same_namespace none none = true
same_namespace (some a) (some b) = a =s b
same_namespace _ _ = false

same_namespace_refl : (o : Option Bytes) → same_namespace o o ≡ true
unfolding same_namespace
same_namespace_refl none = refl
same_namespace_refl (some a) = =s_refl a

same_namespace_eq : (o q : Option Bytes) → same_namespace o q ≡ true → o ≡ q
unfolding same_namespace
same_namespace_eq none none h = refl
same_namespace_eq (some a) (some b) h = ap some (=s→eq a b h)
same_namespace_eq none (some b) h = cc
same_namespace_eq (some a) none h = cc

same_key : Key → Key → Bool
unfolding same_namespace
same_key a b =
    a.name =s b.name && a.resource =s b.resource && same_namespace a.namespace b.namespace

held : List Patch → Key → Bytes → Option Bytes
unfolding same_key find
held [] k f = none
held (p ∷ sent) k f = if same_key p.key k then find f (split p.body 0) else held sent k f

held_self :
    (sent : List Patch) (p : Patch) (o : Object) (f v : Bytes)
    → p.body ≡ encode o.spec
    → value_of f o.spec ≡ some v
    → held (p ∷ sent) p.key f ≡ some v
unfolding held
held_self sent p o f v body value =
    rw
      (
        =s_refl p.key.name,
        =s_refl p.key.resource,
        same_namespace_refl p.key.namespace,
        body,
        find-encode f o.spec,
      )
      value

abbrev key : Bytes → Bytes → Option Bytes → Key
key name resource namespace = record { name = name; resource = resource; namespace = namespace }

same_key_eq : (a b : Key) → same_key a b ≡ true → a ≡ b
unfolding same_key
same_key_eq a b h =
    let (rest, namespace) =
      both_true (a.name =s b.name && a.resource =s b.resource)
        (same_namespace a.namespace b.namespace) h in
    let (name, resource) = both_true (a.name =s b.name) (a.resource =s b.resource) rest in
    ap₂ (λ n r. key n r a.namespace) (=s→eq a.name b.name name)
      (=s→eq a.resource b.resource resource)
    ∙ ap (key b.name b.resource) (same_namespace_eq a.namespace b.namespace namespace)

held_other :
    (sent : List Patch) (p : Patch) (k : Key) (f : Bytes)
    → k ≢ p.key
    → held (p ∷ sent) k f ≡ held sent k f
unfolding held
held_other sent p k f ne = elim (Bool-cases (same_key p.key k)) [
  | inl same ↦ absurd (ne (sym (same_key_eq p.key k same)))
  | inr differs ↦ rw differs refl
]

server-Serves : Serves server (λ o. encode o.spec) held
unfolding is_stamp
server-Serves = record {
  discovers = λ sent. refl;
  connects = λ sent. refl;
  tells_time = λ sent. refl;
  decodes = parse-document;
  maps = λ sent. refl;
  marshals = λ o. refl;
  accepts = λ sent p force. refl;
  merges = λ sent p o f v force body name value. held_self sent p o f v body value;
  keeps = held_other;
}

other_key : Key
other_key = key (codes "migration-other") (codes "migrations") none

other_key_ne : other_key ≢ sample
unfolding other_key
other_key_ne e = cc

last_pod_remains_example :
    let r = for_each (web_pod ∷ registry_pod ∷ api_pod ∷ []) (move_pod server target) [] [] in
    (r.outcome ≡ ok tt)
    × (held r.globals other_key (codes "podname") ≡ held [] other_key (codes "podname"))
    × ((held r.globals sample (codes "podname") ≡ some (codes "\"api\""))
        × (held r.globals sample (codes "namespace") ≡ some (codes "\"shop\""))
        × (held r.globals sample (codes "destinationNode") ≡ some (codes "\"n3\""))
        × (held r.globals sample (codes "destinationNamespace") ≡ some (codes "\"shop\"")))
unfolding check_is_valid_namespace is_plain ◌=s◌
last_pod_remains_example =
    last_pod_remains server (λ o. encode o.spec) held server-Serves target refl
      (web_pod ∷ registry_pod ∷ []) api_pod [] [] other_key (codes "podname")
      ((refl, refl), ((refl, refl), tt)) (refl, refl) refl other_key_ne
