-- ===== src/Util/ImageCheck/Command.antt =====
-- The job that pulls a pod's images.
use checkpoint_operator.Base.{
  ℕ, ◌+◌, ◌-◌, List, [], ◌∷◌, ◌++◌, Bytes, codes, length, length-append, take-append_self,
  append_assoc, ltb, false, ◌≡◌, refl, ap, ◌∙◌, arith,
}
use checkpoint_operator.Outcome.{ok, panic}
use checkpoint_operator.Cluster.{Env, NewJob, Trace, create_job}
use checkpoint_operator.Proc.{◌>>=◌, continue}
use checkpoint_operator.Util.Clientset.{create_client_set}
use checkpoint_operator.Util.ImageCheck.{
  pull_commands, cut_last_four, check_job, check_image_id_exist_on_node,
}

abbrev pub and_then : Bytes
and_then = codes " && "

abbrev pub pull : Bytes → Bytes
pull id = codes "buildah pull " ++ id

-- The commands for the images, joined by ` && `.
abbrev pub joined : Bytes → List Bytes → Bytes
joined id [] = pull id
joined id (next ∷ ids) = pull id ++ and_then ++ joined next ids

pull_commands-eq :
    (acc id : Bytes) (ids : List Bytes)
    → pull_commands acc (id ∷ ids) ≡ acc ++ joined id ids ++ and_then
unfolding pull_commands
pull_commands-eq acc id [] = simp append_assoc
pull_commands-eq acc id (next ∷ ids) =
    pull_commands-eq (acc ++ codes "buildah pull " ++ id ++ codes " && ") next ids
    ∙ simp append_assoc

ltb_four : (n : ℕ) → ltb (n + 4) 4 ≡ false
ltb_four n = ground arith

cut_last_four-append : (s : Bytes) → cut_last_four (s ++ and_then) ≡ ok s
unfolding cut_last_four
cut_last_four-append s =
    let four : length (s ++ and_then) ≡ length s + 4 = length-append s and_then in
    let cut : length (s ++ and_then) - 4 ≡ length s = omega arith in
    rw four (rw (ltb_four (length s)) (rw (rw four at cut) (ap ok (take-append_self s and_then))))

pub check_command :
    (id : Bytes) (ids : List Bytes)
    → (cut_last_four (pull_commands [] (id ∷ ids)) ≡ ok (joined id ids))
      × (cut_last_four (pull_commands [] []) ≡ panic)
unfolding pull_commands cut_last_four
check_command id ids =
    (ap cut_last_four (pull_commands-eq [] id ids) ∙ cut_last_four-append (joined id ids), refl)

-- The job pulls these images on the node, one after the other, each only if the one before it was
-- pulled.
pub record Pulls (id : Bytes) (ids : List Bytes) (node : Bytes) (job : NewJob) : Type 0 where
  pub image : job.image ≡ codes "quay.io/buildah/stable"
  pub command : job.command ≡ codes "/bin/sh" ∷ []
  pub args : job.args ≡ codes "-c" ∷ joined id ids ∷ []
  pub node_name : job.node_name ≡ node

-- Where the client set can be made, then for a pod with container statuses just one more call is made:
-- it creates a job that pulls the images on the node, one after the other, each only if the one before
-- it was pulled, and the answer to it is the result. For a pod with none the cut is out of range, and
-- the operator panics with no call.
pub check_image_id_exist_on_node-Pulls :
    (env : Env) {S : Type 0} (node id : Bytes) (ids : List Bytes) (s : S) (t : Trace)
    → (create_client_set env s t).outcome ≡ ok tt
    → let client = (create_client_set env s t).trace in
      let r = check_image_id_exist_on_node env (id ∷ ids) node s t in
      let none_listed = check_image_id_exist_on_node env [] node s t in
      ((job : NewJob) × Pulls id ids node job
        × (r.trace ≡ create_job (codes "docker-registry") job ∷ client)
        × (r.outcome ≡ env.create_job client (codes "docker-registry") job))
      × ((none_listed.outcome ≡ panic) × (none_listed.trace ≡ client))
unfolding check_image_id_exist_on_node check_job ◌>>=◌
check_image_id_exist_on_node-Pulls env node id ids s t connected =
    let (cut, empty) = check_command id ids in
    let r = create_client_set env s t in
    let job = check_job (env.now r.trace) (joined id ids) node in
    (
      (
        job,
        record { image = refl; command = refl; args = refl; node_name = refl },
        rw (connected, continue, cut) refl,
        rw (connected, continue, cut) refl,
      ),
      (rw (connected, continue, empty) refl, rw (connected, continue, empty) refl),
    )
