-- ===== src/Mutation/Labels.antt =====
-- Which reviews are answered, and with which labels.
use checkpoint_operator.Base.{
  [], ◌∷◌, ◌++◌, Option, none, some, true, is_some, Bytes, codes, ◌=s◌, =s_iff, if◌then◌else◌, ◌≡◌,
  ◌≢◌, arith, Option-cases, ◌⊎◌, inl, inr,
}
use checkpoint_operator.Outcome.{Outcome-cases, ok, panic}
use checkpoint_operator.Cluster.{Trace}
use checkpoint_operator.Proc.{◌>>=◌, on_error, modify}
use checkpoint_operator.Mutation.{
  Labels, AdmissionRequest, Codec, Writer, set_label, drop_label, assign, non_nil, label_patch,
  handle_mutate,
}

-- `labels[k]`, with `none` where there is none
abbrev pub label_of : Bytes → Labels → Option Bytes
label_of k [] = none
label_of k ((j, v) ∷ labels) = if j =s k then some v else label_of k labels

label_of-drop_label :
    (k j : Bytes) (labels : Labels)
    → label_of j (drop_label k labels) ≡ (if k =s j then none else label_of j labels)
unfolding drop_label
label_of-drop_label k j [] = ground arith
label_of-drop_label k j ((i, v) ∷ labels) =
    ground (arith, label_of-drop_label k j labels, =s_iff i k, =s_iff i j, =s_iff k j)

label_of-set_label :
    (k j v : Bytes) (labels : Labels)
    → label_of j (set_label k v labels) ≡ (if k =s j then some v else label_of j labels)
unfolding set_label
label_of-set_label k j v labels = ground (arith, label_of-drop_label k j labels)

-- The answer to a request: it is allowed, with one patch, which adds these labels to the metadata.
abbrev pub answer : Codec → AdmissionRequest → Labels → Bytes
answer codec request labels =
    (codec.marshal_response (record {
      uid = request.uid;
      allowed = true;
      patch =
          (codec.marshal_patches (
            (record { op = codes "add"; path = codes "/metadata/labels"; value = labels }) ∷ [])).0;
    })).0

-- A body that the handler answers: it can be saved, it has a request, and the pod of the request has
-- labels. These are all in the patch, and the new one with them. If the decoder has also given an
-- error, the answer has the status of a bad request.
pub record Answered (codec : Codec) (body : Bytes) (w w' : Writer) : Type 0 where
  pub saved : codec.save body ≡ ok tt
  pub request : AdmissionRequest
  pub decoded : (codec.decode body).0 ≡ some request
  pub labels : Labels
  pub labelled : (codec.unmarshal_pod request.object_raw).0 ≡ some labels
  pub new_labels : Labels
  pub patched :
      (k : Bytes)
      → label_of k new_labels
        ≡ (if codes "example-webhook" =s k then some (codes "it-worked") else label_of k labels)
  pub written : w'.body ≡ w.body ++ answer codec request new_labels
  pub statuses :
      w'.statuses ≡ (if is_some (codec.decode body).1 then w.statuses ++ 400 ∷ [] else w.statuses)

-- A body that cannot be saved, or has no request, or one for a pod with no labels.
abbrev pub IsUnanswerable : Codec → Bytes → Type 0
IsUnanswerable codec body =
    (codec.save body ≢ ok tt)
    ⊎ ((codec.decode body).0 ≡ none)
    ⊎ ((request : AdmissionRequest) × ((codec.decode body).0 ≡ some request)
        × ((codec.unmarshal_pod request.object_raw).0 ≡ none))

module _ (codec : Codec) (body : Bytes) (w : Writer) (t : Trace) where
  -- The request is not answered; the server closes the connection.
  abbrev Fails : Type 0
  Fails =
      ((handle_mutate codec body w t).outcome ≡ panic)
      × ((handle_mutate codec body w t).globals.body ≡ w.body)

  unsaved : codec.save body ≢ ok tt → Fails
  unfolding handle_mutate label_patch ◌>>=◌ on_error modify non_nil assign
  unsaved h = ground arith

  no_request : (codec.decode body).0 ≡ none → Fails
  unfolding handle_mutate label_patch ◌>>=◌ on_error modify non_nil assign
  no_request h = ground arith

  no_labels :
      (request : AdmissionRequest)
      → (codec.decode body).0 ≡ some request
      → (codec.unmarshal_pod request.object_raw).0 ≡ none
      → Fails
  unfolding handle_mutate label_patch ◌>>=◌ on_error modify non_nil assign
  no_labels request h k = ground arith

  labels_patched :
      (request : AdmissionRequest) (labels : Labels)
      → codec.save body ≡ ok tt
      → (codec.decode body).0 ≡ some request
      → (codec.unmarshal_pod request.object_raw).0 ≡ some labels
      → let r = handle_mutate codec body w t in
        (r.outcome ≡ ok tt)
        × (r.globals.body
            ≡ w.body
              ++ answer codec request
                  (set_label (codes "example-webhook") (codes "it-worked") labels))
        × (r.globals.statuses
            ≡ (if is_some (codec.decode body).1 then w.statuses ++ 400 ∷ [] else w.statuses))
  unfolding handle_mutate label_patch ◌>>=◌ on_error modify non_nil assign
  labels_patched request labels h k l = ground arith

  saved-or_not : (codec.save body ≡ ok tt) ⊎ (codec.save body ≢ ok tt)
  saved-or_not = elim (Outcome-cases (codec.save body)) [
    | inl (u, e) ↦ inl e
    | inr (inl (x, e)) ↦ inr (λ f. cc (e, f))
    | inr (inr e) ↦ inr (λ f. cc (e, f))
  ]

  -- Either the handler answers: it admits the pod, and its one patch adds to the metadata
  -- the pod's labels and the new one.
  -- Or the body cannot be saved, has no request, or is for a pod with no labels; then the handler
  -- panics and has written no answer.
  pub handle_mutate-Answered :
      let r = handle_mutate codec body w t in
      ((r.outcome ≡ ok tt) × Answered codec body w r.globals)
      ⊎ (((r.outcome ≡ panic) × (r.globals.body ≡ w.body)) × IsUnanswerable codec body)
  handle_mutate-Answered = elim saved-or_not [
    | inr unsaved_body ↦ inr (unsaved unsaved_body, inl unsaved_body)
    | inl saved ↦ elim (Option-cases (codec.decode body).0) [
      | inl missing ↦ inr (no_request missing, inr (inl missing))
      | inr (request, decoded) ↦ elim (Option-cases (codec.unmarshal_pod request.object_raw).0) [
        | inl unlabelled ↦
            inr (no_labels request decoded unlabelled, inr (inr (request, decoded, unlabelled)))
        | inr (labels, labelled) ↦
            let (done, written, statuses) = labels_patched request labels saved decoded labelled in
            inl (
              done,
              record {
                saved = saved;
                request = request;
                decoded = decoded;
                labels = labels;
                labelled = labelled;
                new_labels = set_label (codes "example-webhook") (codes "it-worked") labels;
                patched =
                    λ k. label_of-set_label (codes "example-webhook") k (codes "it-worked") labels;
                written = written;
                statuses = statuses;
              },
            )
      ]
    ]
  ]
