-- ===== src/Tests/Served.antt =====
-- The manager's start, and the server that labels pods, at concrete inputs.
use checkpoint_operator.Base.{
  ◌++◌, List, Bytes, if◌then◌else◌, true, refl, false, [], ◌∷◌, none, some, not, codes, ◌=s◌, ◌≡◌,
  ◌⊎◌,
}
use checkpoint_operator.Outcome.{ok, panic}
use checkpoint_operator.Proc.{◌>>=◌, on_error, modify}
use checkpoint_operator.Manager.{act, finish, Host, default_flags, scheme_builder, main, start}
use checkpoint_operator.Manager.Started.{starts, registered, all_ok, main-starts}
use checkpoint_operator.Mutation.{
  AdmissionRequest, Codec, Writer, Labels, PatchOperation, set_label, drop_label, assign, non_nil,
  label_patch, handle_mutate,
}
use checkpoint_operator.Mutation.Labels.{Answered, IsUnanswerable, handle_mutate-Answered}

abbrev willing : Host
willing done a = ok tt

main-starts_example :
    let before = registered scheme_builder default_flags (not (codes "false" =s codes "false")) in
    let made = (main willing scheme_builder default_flags (codes "false") [] []).globals in
    (starts made ≡ all_ok willing before) × ((starts made ≡ false) ⊎ (made ≡ start ∷ before))
main-starts_example = main-starts willing scheme_builder default_flags (codes "false") []

starts_without_webhook :
    starts (main willing scheme_builder default_flags (codes "false") [] []).globals ≡ true
unfolding main finish act ◌>>=◌ on_error ◌=s◌
starts_without_webhook = refl

abbrev review : AdmissionRequest
review = record { uid = codes "705ab4f5"; object_raw = codes "{}" }

pairs : Labels → Bytes
pairs [] = []
pairs ((k, v) ∷ labels) = k ++ codes "=" ++ v ++ codes "," ++ pairs labels

patch_text : List PatchOperation → Bytes
unfolding pairs
patch_text [] = []
patch_text (p ∷ ps) = p.op ++ codes " " ++ p.path ++ codes ":" ++ pairs p.value ++ patch_text ps

-- Every body is a request for a pod with one label. The encoders write out all that they are given.
abbrev plain : Codec
plain = record {
  save = λ body. ok tt;
  decode = λ body. (some review, none);
  unmarshal_pod = λ raw. (some ((codes "app", codes "web") ∷ []), none);
  marshal_patches = λ patches. (patch_text patches, none);
  marshal_response = λ response. (
    response.uid ++ (if response.allowed then codes " allowed " else codes " ") ++ response.patch,
    none,
  );
}

abbrev unwritten : Writer
unwritten = record { statuses = []; body = [] }

handle_mutate-Answered_example :
    let r = handle_mutate plain (codes "{}") unwritten [] in
    ((r.outcome ≡ ok tt) × Answered plain (codes "{}") unwritten r.globals)
    ⊎ (((r.outcome ≡ panic) × (r.globals.body ≡ [])) × IsUnanswerable plain (codes "{}"))
handle_mutate-Answered_example = handle_mutate-Answered plain (codes "{}") unwritten []

-- The labels that the server sends back for that pod.
labelled :
    (handle_mutate plain (codes "{}") unwritten []).globals.body
    ≡ codes "705ab4f5 allowed add /metadata/labels:example-webhook=it-worked,app=web,"
unfolding handle_mutate label_patch set_label drop_label pairs patch_text ◌>>=◌ on_error modify
    assign non_nil ◌=s◌
labelled = refl
