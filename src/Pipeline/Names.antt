-- ===== src/Pipeline/Names.antt =====
-- One pod's name on its way: the kubelet's archive, the image, the new pod, the old pod.
use checkpoint_operator.Base.{
  ◌∷◌, ◌++◌, Bytes, codes, Lacks, trim_prefix-append, All-append_Lacks, ◌≡◌, ap, ◌∙◌, arith,
}
use checkpoint_operator.Util.ImageName.{
  checkpoint_dir, modify_checkpoint_to_image_name, modify_checkpoint_of_path,
}
use checkpoint_operator.Deploy.{checkpoint_prefix, old_pod_name}
use checkpoint_operator.Restore.{after_dash}
use checkpoint_operator.Restore.OldName.{after_dash-append}

-- The path of a checkpoint archive, as the kubelet names it: the pod's full name comes before the
-- first underscore.
abbrev pub archive_path : Bytes → Bytes → Bytes
archive_path pod rest = checkpoint_dir ++ (checkpoint_prefix ++ pod) ++ b'_' ∷ rest

prefix-Lacks : Lacks b'_' checkpoint_prefix
prefix-Lacks = omega arith

old_pod_name-prefix : (pod : Bytes) → old_pod_name (checkpoint_prefix ++ pod) ≡ pod
unfolding old_pod_name
old_pod_name-prefix pod = trim_prefix-append checkpoint_prefix pod

after_dash-prefix : (pod : Bytes) → after_dash (checkpoint_prefix ++ pod) ≡ pod
after_dash-prefix pod = after_dash-append (codes "checkpoint") pod (omega arith)

-- From the archive of a pod whose name holds no underscore, the image name is `checkpoint-` and the
-- name; from that, the operator and the restore daemon each get the pod's name back.
pub archive-names :
    (pod rest : Bytes)
    → Lacks b'_' pod
    → let image = modify_checkpoint_to_image_name (archive_path pod rest) in
      (image ≡ checkpoint_prefix ++ pod) × (old_pod_name image ≡ pod) × (after_dash image ≡ pod)
archive-names pod rest h =
    let image =
      modify_checkpoint_of_path (checkpoint_prefix ++ pod) rest
        (All-append_Lacks b'_' checkpoint_prefix pod prefix-Lacks h) in
    (
      image,
      ap old_pod_name image ∙ old_pod_name-prefix pod,
      ap after_dash image ∙ after_dash-prefix pod,
    )
