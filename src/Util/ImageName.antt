-- ===== src/Util/ImageName.antt =====
-- practice/util/checkpoint_to_image.go: the image name in the path of a checkpoint archive.
use checkpoint_operator.Base.{
  split_two-append, ap, ℕ, List, [], ◌∷◌, ◌++◌, Bytes, codes, Lacks, index, trim_prefix,
  trim_prefix-append, split_two, take-index-Lacks, index-none-Lacks, ◌≡◌, Option-cases, inl, inr,
}

abbrev pub checkpoint_dir : Bytes
checkpoint_dir = codes "/var/lib/kubelet/checkpoints/"

-- `parts[0]`; SplitN gives at least one part.
abbrev pub first_part : List Bytes → Bytes
first_part [] = []
first_part (p ∷ ps) = p

unfoldable pub modify_checkpoint_to_image_name : Bytes → Bytes
modify_checkpoint_to_image_name checkpoint =
    first_part (split_two (trim_prefix checkpoint checkpoint_dir) b'_')

first_part-split_two-Lacks : (s : Bytes) (sep : ℕ) → Lacks sep (first_part (split_two s sep))
unfolding split_two
first_part-split_two-Lacks s sep = elim (Option-cases (index s sep)) [
  | inl e ↦ rw (e, split_two) (index-none-Lacks s sep e)
  | inr (i, e) ↦ rw (e, split_two) (take-index-Lacks s sep i e)
]

-- The kubelet names an archive `checkpoint-<pod>_<namespace>-<container>-<time>.tar`. From its path
-- the function takes what stands before the first `_`.
pub modify_checkpoint_of_path :
    (image rest : Bytes)
    → Lacks b'_' image
    → modify_checkpoint_to_image_name (checkpoint_dir ++ image ++ b'_' ∷ rest) ≡ image
unfolding modify_checkpoint_to_image_name
modify_checkpoint_of_path image rest h =
    rw (trim_prefix-append checkpoint_dir (image ++ b'_' ∷ rest))
      (ap first_part (split_two-append image rest b'_' h))

-- The name that the function returns holds no `_`, whatever it is given.
modify_checkpoint-Lacks : (path : Bytes) → Lacks b'_' (modify_checkpoint_to_image_name path)
unfolding modify_checkpoint_to_image_name
modify_checkpoint-Lacks path = first_part-split_two-Lacks (trim_prefix path checkpoint_dir) b'_'
