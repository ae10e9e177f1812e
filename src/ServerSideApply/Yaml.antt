-- ===== src/ServerSideApply/Yaml.antt =====
-- The YAML of a Migration as a document with seven places, and the object that it stands for.
use checkpoint_operator.Base.{
  List, [], ◌∷◌, ◌++◌, Bool, true, false, not, ◌&&◌, ◌||◌, Bytes, codes, leb, ◌==◌, ◌=s◌, ◌≡◌, ℕ,
  refl,
}
use checkpoint_operator.Cluster.{MigrationSpec}
use checkpoint_operator.ServerSideApply.{Object, migration_text}

pub record Document : Type 0 where
  pub name : Bytes
  pub namespace : Bytes
  pub stamp : Bytes
  pub pod : Bytes
  pub source : Bytes
  pub node : Bytes
  pub target : Bytes

abbrev pub unlines : List Bytes → Bytes
unlines [] = []
unlines (line ∷ more) = line ++ b'\n' ∷ unlines more

abbrev pub document : Document → List Bytes
document d =
    []
    ∷ codes "apiVersion: api.my.domain/v1alpha1"
    ∷ codes "kind: Migration"
    ∷ codes "metadata:"
    ∷ (codes "  name: " ++ d.name)
    ∷ codes "  labels:"
    ∷ codes "    example-webhook-enabled: \"true\""
    ∷ (codes "    force-update: \"" ++ d.stamp ++ codes "\"")
    ∷ (codes "  namespace: " ++ d.namespace)
    ∷ codes "spec:"
    ∷ (codes "  podname: " ++ d.pod)
    ∷ codes "  deployment: \"\""
    ∷ (codes "  namespace: " ++ d.source)
    ∷ (codes "  destinationNode: " ++ d.node)
    ∷ (codes "  destinationNamespace: " ++ d.target)
    ∷ codes "  specify: []"
    ∷ []

abbrev pub quoted : Bytes → Bytes
quoted s = b'"' ∷ s ++ b'"' ∷ []

abbrev pub object : Document → Object
object d = record {
  group = codes "api.my.domain";
  version = codes "v1alpha1";
  kind = codes "Migration";
  name = d.name;
  namespace = d.namespace;
  labels = (codes "example-webhook-enabled", codes "true") ∷ (codes "force-update", d.stamp) ∷ [];
  spec =
      (codes "podname", quoted d.pod)
      ∷ (codes "deployment", quoted [])
      ∷ (codes "namespace", quoted d.source)
      ∷ (codes "destinationNode", quoted d.node)
      ∷ (codes "destinationNamespace", quoted d.target)
      ∷ (codes "specify", codes "[]")
      ∷ [];
}

abbrev between : ℕ → ℕ → ℕ → Bool
between low high b = leb low b && leb b high

abbrev is_letter : ℕ → Bool
is_letter b = between b'a' b'z' b

abbrev pub is_stamp_byte : ℕ → Bool
is_stamp_byte b = between b'0' b'9' b || b == b'-'

abbrev pub is_name_byte : ℕ → Bool
is_name_byte b = is_letter b || is_stamp_byte b || b == b'.'

abbrev pub all : (ℕ → Bool) → Bytes → Bool
all p [] = true
all p (b ∷ s) = p b && all p s

abbrev is_one_of : List Bytes → Bytes → Bool
is_one_of [] s = false
is_one_of (word ∷ words) s = word =s s || is_one_of words s

-- The words that YAML 1.1 does not take for texts.
abbrev words : List Bytes
words =
    codes "y"
    ∷ codes "n"
    ∷ codes "yes"
    ∷ codes "no"
    ∷ codes "on"
    ∷ codes "off"
    ∷ codes "true"
    ∷ codes "false"
    ∷ codes "null"
    ∷ []

starts_with_letter : Bytes → Bool
starts_with_letter [] = false
starts_with_letter (b ∷ s) = is_letter b

-- The name of an object of Kubernetes that YAML takes for a text where it has no quotes.
unfoldable pub is_plain : Bytes → Bool
unfolding starts_with_letter
is_plain s = starts_with_letter s && all is_name_byte s && not (is_one_of words s)

-- The time in digits and dashes.
unfoldable pub is_stamp : Bytes → Bool
is_stamp s = all is_stamp_byte s

pub record IsPlain (d : Document) : Type 0 where
  pub name : is_plain d.name ≡ true
  pub namespace : is_plain d.namespace ≡ true
  pub stamp : is_stamp d.stamp ≡ true
  pub pod : is_plain d.pod ≡ true
  pub source : is_plain d.source ≡ true
  pub node : is_plain d.node ≡ true
  pub target : is_plain d.target ≡ true

-- The text of DoSSA is such a document, with the one name.
pub migration_text-document :
    (stamp : Bytes) (spec : MigrationSpec)
    → migration_text stamp spec
      ≡ unlines (
          document (record {
            name = codes "migration-sample";
            namespace = codes "practice-system";
            stamp = stamp;
            pod = spec.pod_name;
            source = spec.namespace;
            node = spec.destination_node;
            target = spec.destination_namespace;
          }))
unfolding migration_text
migration_text-document stamp spec = refl
