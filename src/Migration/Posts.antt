-- ===== src/Migration/Posts.antt =====
-- The requests to the kubelets.
use checkpoint_operator.Base.{
  List, [], ◌∷◌, true, false, Bytes, ◌≡◌, refl, ◌=s◌, All, Any, Any-map, All-of_members,
}
use checkpoint_operator.Cluster.{Env, Call, Pod, MigrationSpec, Trace, post}
use checkpoint_operator.Util.Globals.{PodsMap}
use checkpoint_operator.Kubelet.{full_url}
use checkpoint_operator.Migration.{checkpoint_each, checkpoint_address, running}
use checkpoint_operator.Migration.Invariants.{is_sent, checkpoint_each-Keeps}

-- The addresses that a trace posts to, the newest first.
abbrev pub posted : Trace → List Bytes
posted [] = []
posted (post url ∷ t) = url ∷ posted t
posted (c ∷ t) = posted t

-- The address is the checkpoint endpoint of a container of a running pod of the list.
abbrev pub IsTarget : List Pod → Bytes → Type 0
IsTarget pods url =
    Any
      (λ pod.
        (pod.phase =s running ≡ true)
        × Any (λ c. url ≡ full_url (checkpoint_address pod c)) pod.containers)
      pods

abbrev PostsTargets : List Pod → PodsMap → Trace → Type 0
PostsTargets pods s t = All (IsTarget pods) (posted t)

other_call :
    (pods : List Pod) (c : Call) (s : PodsMap) (t : Trace)
    → is_sent c ≡ false
    → PostsTargets pods s t
    → PostsTargets pods s (c ∷ t)
other_call pods (post url) s t e h = cc
other_call pods _ s t e h = h

-- If it is so in the trace before the run, then however the run ends, all requests to kubelets in
-- the trace are for containers of those given pods that are running.
pub checkpoint_each_posts :
    (env : Env) (spec : MigrationSpec) (pods : List Pod) (s : PodsMap) (t : Trace)
    → All (IsTarget pods) (posted t)
    → All (IsTarget pods) (posted (checkpoint_each env spec pods s t).trace)
checkpoint_each_posts env spec pods s t h =
    (checkpoint_each-Keeps {P = PostsTargets pods}
        {Target = λ pod c. IsTarget pods (full_url (checkpoint_address pod c))} env
        (other_call pods) (λ pod c s t target h. (target, h)) spec pods
        (All-of_members pods (λ pod m e.
          All-of_members pod.containers
            (λ c n. Any-map (λ p same. rw same (e, Any-map (λ c' same'. rw same' refl) n)) m)))).at
      s t h
