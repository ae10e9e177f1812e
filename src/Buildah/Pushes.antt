-- ===== src/Buildah/Pushes.antt =====
-- The job that makes an image, written out.
use checkpoint_operator.Base.{
  [], ◌∷◌, ◌++◌, append_assoc, Bytes, codes, trim_prefix, ◌≡◌, refl, ap, ◌∙◌,
}
use checkpoint_operator.Base.Text.UpTo.{up_to, split_two-up_to}
use checkpoint_operator.Cluster.{NewJob}
use checkpoint_operator.Util.ImageName.{first_part, modify_checkpoint_to_image_name}
use checkpoint_operator.Buildah.{image_reference, build_command, build_job}

-- The name of an archive's image: what comes before the first underscore in the archive's path within
-- the kubelet's directory.
abbrev pub image_of : Bytes → Bytes
image_of archive = up_to b'_' (trim_prefix archive (codes "/var/lib/kubelet/checkpoints/"))

modify_checkpoint-image_of :
    (archive : Bytes) → modify_checkpoint_to_image_name archive ≡ image_of archive
unfolding modify_checkpoint_to_image_name
modify_checkpoint-image_of archive =
    let (more, e) =
      split_two-up_to (trim_prefix archive (codes "/var/lib/kubelet/checkpoints/")) b'_' in
    ap first_part e

-- The command adds the archive to an empty image, marks it as a checkpoint, commits it under its
-- name and pushes it to port 5000 of the registry.
abbrev pub script : Bytes → Bytes → Bytes → Bytes
script archive name registry =
    codes "newcontainer=$(buildah from scratch); "
    ++ codes "buildah add $newcontainer "
    ++ archive
    ++ codes " /; "
    ++ codes "buildah config --annotation=io.kubernetes.cri-o.annotations.checkpoint.name="
    ++ name
    ++ codes " $newcontainer; "
    ++ codes "buildah commit $newcontainer "
    ++ name
    ++ codes ":latest; "
    ++ codes "buildah rm $newcontainer; "
    ++ codes "buildah push --creds=myuser:mypasswd --tls-verify=false localhost/"
    ++ name
    ++ codes ":latest "
    ++ registry
    ++ codes ":5000/"
    ++ name
    ++ codes ":latest;"

-- The job runs this on the node.
pub record Pushes (node archive registry : Bytes) (job : NewJob) : Type 0 where
  pub image : job.image ≡ codes "quay.io/buildah/stable"
  pub command : job.command ≡ codes "/bin/bash" ∷ []
  pub args : job.args ≡ codes "-c" ∷ script archive (image_of archive) registry ∷ []
  pub node_name : job.node_name ≡ node

build_command-script :
    (archive name registry : Bytes)
    → build_command archive name registry ≡ script archive name registry
unfolding build_command image_reference
build_command-script archive name registry = simp append_assoc

pub build_job-Pushes :
    (now node archive registry : Bytes)
    → Pushes node archive registry (build_job now node archive registry)
unfolding build_job
build_job-Pushes now node archive registry = record {
  image = refl;
  command = refl;
  args =
      ap (λ s. codes "-c" ∷ s ∷ [])
        (build_command-script archive (modify_checkpoint_to_image_name archive) registry
          ∙ ap (λ name. script archive name registry) (modify_checkpoint-image_of archive));
  node_name = refl;
}
