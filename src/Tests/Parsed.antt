-- ===== src/Tests/Parsed.antt =====
-- A decoder that reads the YAML of a Migration line by line.
use checkpoint_operator.Base.{
  ℕ, zero, suc, List, [], ◌∷◌, ◌++◌, Bool, true, false, not, ◌&&◌, Bytes, codes, ◌==◌, ◌≡◌, refl,
  ap, ◌∙◌, All, Lacks, All-append_Lacks, split, split-append, trim_prefix, trim_prefix-append,
  arith,
}
use checkpoint_operator.Base.Text.UpTo.{up_to}
use checkpoint_operator.Outcome.{Outcome, ok}
use checkpoint_operator.ServerSideApply.{Object}
use checkpoint_operator.ServerSideApply.Yaml.{
  Document, IsPlain, all, document, object, unlines, is_plain, is_stamp, is_name_byte,
  is_stamp_byte,
}

line : ℕ → List Bytes → Bytes
line n [] = []
line zero (l ∷ ls) = l
line (suc n) (l ∷ ls) = line n ls

place : Bytes → ℕ → List Bytes → Bytes
unfolding line
place key n ls = trim_prefix (line n ls) key

read_lines : List Bytes → Document
unfolding place
read_lines ls = record {
  name = place (codes "  name: ") 4 ls;
  namespace = place (codes "  namespace: ") 8 ls;
  stamp = up_to b'"' (place (codes "    force-update: \"") 7 ls);
  pod = place (codes "  podname: ") 10 ls;
  source = place (codes "  namespace: ") 12 ls;
  node = place (codes "  destinationNode: ") 13 ls;
  target = place (codes "  destinationNamespace: ") 14 ls;
}

pub parse : Bytes → Outcome Object
unfolding read_lines
parse text = ok (object (read_lines (split text b'\n')))

split-unlines : (ls : List Bytes) → All (Lacks b'\n') ls → split (unlines ls) b'\n' ≡ ls ++ [] ∷ []
unfolding split
split-unlines [] h = refl
split-unlines (l ∷ ls) (h, hs) =
    split-append l (unlines ls) b'\n' h ∙ ap (λ ls. l ∷ ls) (split-unlines ls hs)

pub both_true : (a b : Bool) → a && b ≡ true → (a ≡ true) × (b ≡ true)
both_true true b h = (refl, h)
both_true false b h = cc

all-Lacks : (p : ℕ → Bool) (sep : ℕ) (s : Bytes) → p sep ≡ false → all p s ≡ true → Lacks sep s
all-Lacks p sep [] out h = tt
all-Lacks p sep (b ∷ s) out h =
    let (first, rest) = both_true (p b) (all p s) h in
    (λ e. cc (first, out, ap p e), all-Lacks p sep s out rest)

up_to-append : (sep : ℕ) (s t : Bytes) → Lacks sep s → up_to sep (s ++ sep ∷ t) ≡ s
up_to-append sep [] t h = ground arith
up_to-append sep (b ∷ s) t h = ground (arith, up_to-append sep s t h.1)

name-Lacks : (s : Bytes) → is_plain s ≡ true → Lacks b'\n' s
unfolding is_plain
name-Lacks s h = all-Lacks is_name_byte b'\n' s refl (both_true _ _ (both_true _ _ h).0).1

stamp-Lacks : (s : Bytes) (sep : ℕ) → is_stamp_byte sep ≡ false → is_stamp s ≡ true → Lacks sep s
unfolding is_stamp
stamp-Lacks s sep out h = all-Lacks is_stamp_byte sep s out h

abbrev is_other : ℕ → Bool
is_other b = not (b == b'\n')

text-Lacks : (s : Bytes) → all is_other s ≡ true → Lacks b'\n' s
text-Lacks s h = all-Lacks is_other b'\n' s refl h

line-Lacks : (key s : Bytes) → all is_other key ≡ true → is_plain s ≡ true → Lacks b'\n' (key ++ s)
line-Lacks key s h k = All-append_Lacks b'\n' key s (text-Lacks key h) (name-Lacks s k)

document-Lacks : (d : Document) → IsPlain d → All (Lacks b'\n') (document d)
document-Lacks d h = (
  tt,
  (
    text-Lacks (codes "apiVersion: api.my.domain/v1alpha1") refl,
    (
      text-Lacks (codes "kind: Migration") refl,
      (
        text-Lacks (codes "metadata:") refl,
        (
          line-Lacks (codes "  name: ") d.name refl h.name,
          (
            text-Lacks (codes "  labels:") refl,
            (
              text-Lacks (codes "    example-webhook-enabled: \"true\"") refl,
              (
                All-append_Lacks b'\n' (codes "    force-update: \"") (d.stamp ++ codes "\"")
                    (text-Lacks (codes "    force-update: \"") refl)
                    (All-append_Lacks b'\n' d.stamp (codes "\"")
                      (stamp-Lacks d.stamp b'\n' refl h.stamp) (text-Lacks (codes "\"") refl)),
                (
                  line-Lacks (codes "  namespace: ") d.namespace refl h.namespace,
                  (
                    text-Lacks (codes "spec:") refl,
                    (
                      line-Lacks (codes "  podname: ") d.pod refl h.pod,
                      (
                        text-Lacks (codes "  deployment: \"\"") refl,
                        (
                          line-Lacks (codes "  namespace: ") d.source refl h.source,
                          (
                            line-Lacks (codes "  destinationNode: ") d.node refl h.node,
                            (
                              line-Lacks (codes "  destinationNamespace: ") d.target refl h.target,
                              (text-Lacks (codes "  specify: []") refl, tt),
                            ),
                          ),
                        ),
                      ),
                    ),
                  ),
                ),
              ),
            ),
          ),
        ),
      ),
    ),
  ),
)

abbrev made_of : Bytes → Bytes → Bytes → Bytes → Bytes → Bytes → Bytes → Document
made_of name namespace stamp pod source node target = record {
  name = name;
  namespace = namespace;
  stamp = stamp;
  pod = pod;
  source = source;
  node = node;
  target = target;
}

read_lines-document :
    (d : Document) → is_stamp d.stamp ≡ true → read_lines (document d ++ [] ∷ []) ≡ d
unfolding read_lines place line
read_lines-document d stamped =
    let stamp =
      ap (up_to b'"') (trim_prefix-append (codes "    force-update: \"") (d.stamp ++ codes "\""))
      ∙ up_to-append b'"' d.stamp [] (stamp-Lacks d.stamp b'"' refl stamped) in
    rw
      (
        trim_prefix-append (codes "  name: ") d.name,
        trim_prefix-append (codes "  namespace: ") d.namespace,
        stamp,
        trim_prefix-append (codes "  podname: ") d.pod,
        trim_prefix-append (codes "  namespace: ") d.source,
        trim_prefix-append (codes "  destinationNode: ") d.node,
        trim_prefix-append (codes "  destinationNamespace: ") d.target,
      )
      refl

pub parse-document : (d : Document) → IsPlain d → parse (unlines (document d)) ≡ ok (object d)
unfolding parse
parse-document d h =
    ap (λ ls. ok (object (read_lines ls))) (split-unlines (document d) (document-Lacks d h))
    ∙ ap (λ d. ok (object d)) (read_lines-document d h.stamp)
