-- ===== src/Mutation.antt =====
-- practice/validationwebhook: a server that labels the pods that are admitted.
pub mod Labels
use checkpoint_operator.Base.{
  ℕ, List, [], ◌∷◌, ◌++◌, Option, none, some, Bool, true, false, ◌||◌, not, Bytes, codes, ◌=s◌,
  is_empty, is_some, if◌then◌else◌,
}
use checkpoint_operator.Outcome.{Error, Outcome, errorf, panic, ok}
use checkpoint_operator.Cluster.{
  Env, everywhere, in_cluster_config, build_config, new_clientset, list_pods,
}
use checkpoint_operator.Proc.{
  Proc, call, give, fail, return, modify, when, on_error, panics, ◌>>=◌, ◌>>◌,
}
use checkpoint_operator.Util.HostPort.{decimal}

-- A Go map of labels.
abbrev pub Labels : Type 0
Labels = List (Bytes × Bytes)

-- v1beta1.AdmissionRequest, as far as it is used.
pub record AdmissionRequest : Type 0 where
  pub uid : Bytes
  pub object_raw : Bytes

-- patchOperation
pub record PatchOperation : Type 0 where
  pub op : Bytes
  pub path : Bytes
  pub value : Labels

-- v1beta1.AdmissionResponse
pub record AdmissionResponse : Type 0 where
  pub uid : Bytes
  pub allowed : Bool
  pub patch : Bytes

-- The decoders and encoders give a value along with an error, and the code goes on with the value.
pub record Codec : Type 0 where
  -- os.WriteFile of /tmp/request
  pub save : Bytes → Outcome (Unit {0})
  -- the request of the AdmissionReview, which may be nil
  pub decode : Bytes → Option AdmissionRequest × Option Error
  -- the labels of the pod, where a pod with none has a nil map
  pub unmarshal_pod : Bytes → Option Labels × Option Error
  pub marshal_patches : List PatchOperation → Bytes × Option Error
  pub marshal_response : AdmissionResponse → Bytes × Option Error

-- http.ResponseWriter: the statuses of WriteHeader, and what was written.
pub record Writer : Type 0 where
  pub statuses : List ℕ
  pub body : Bytes

unfoldable pub drop_label : Bytes → Labels → Labels
drop_label k [] = []
drop_label k ((j, v) ∷ labels) =
    if j =s k then drop_label k labels else (j, v) ∷ drop_label k labels

-- `labels[k] = v`
unfoldable pub set_label : Bytes → Bytes → Labels → Labels
unfolding drop_label
set_label k v labels = (k, v) ∷ drop_label k labels

-- An assignment to a nil map is a panic.
unfoldable pub assign : Bytes → Bytes → Option Labels → Outcome Labels
assign k v none = panic
assign k v (some labels) = ok (set_label k v labels)

-- A field of a nil request is a panic.
unfoldable pub non_nil : Option AdmissionRequest → Outcome AdmissionRequest
non_nil none = panic
non_nil (some request) = ok request

unfoldable pub label_patch : Labels → PatchOperation
label_patch labels = record { op = codes "add"; path = codes "/metadata/labels"; value = labels }

module _ (codec : Codec) where
  write_header : ℕ → Proc Writer (Unit {0})
  write_header status = modify (λ w. record w { statuses = w.statuses ++ status ∷ [] })

  write_bytes : Bytes → Proc Writer (Unit {0})
  write_bytes bytes = modify (λ w. record w { body = w.body ++ bytes })

  unfoldable pub handle_root : Proc Writer (Unit {0})
  unfolding write_bytes
  handle_root = write_bytes (codes "HandleRoot!")

  -- HandleMutate for a body that was read. A bad request gets its status, and the function goes on.
  unfoldable pub handle_mutate : Bytes → Proc Writer (Unit {0})
  unfolding write_header write_bytes
  handle_mutate body = do
    on_error (give (codec.save body)) (λ _. panics) (λ _. return tt)
    let (decoded, error) = codec.decode body
    when (is_some error || not (is_some decoded)) (write_header 400)
    request ← give (non_nil decoded)
    let (unmarshalled, _) = codec.unmarshal_pod request.object_raw
    labels ← give (assign (codes "example-webhook") (codes "it-worked") unmarshalled)
    let (patch, _) = codec.marshal_patches (label_patch labels ∷ [])
    let (bytes, _) =
        codec.marshal_response (record { uid = request.uid; allowed = true; patch = patch })
    write_bytes bytes

-- What main takes from the command line, the environment and the system.
pub record Start : Type 0 where
  pub use_kubeconfig : Bytes
  pub kubeconfig : Bytes
  pub home : Bytes
  -- filepath.Join
  pub join : List Bytes → Bytes
  pub port : ℕ
  pub cert_file : Bytes
  pub key_file : Bytes
  -- http.ListenAndServeTLS, which comes back with an error
  pub listen : Bytes → Bytes → Bytes → Error

unfoldable pub kubeconfig_path : Start → Bytes
kubeconfig_path start =
    if not (is_empty start.kubeconfig)
    then start.kubeconfig
    else if not (is_empty start.home)
    then start.join (start.home ∷ codes ".kube" ∷ codes "config" ∷ [])
    else []

module _ (env : Env) {S : Type 0} where
  -- `if err != nil { panic(err.Error()) }`
  or_panic : {A : Type 0} → Proc S A → Proc S A
  or_panic m = on_error m (λ _. panics) return

  -- test
  count_pods : Proc S (Unit {0})
  unfolding or_panic
  count_pods = do
    or_panic (call (list_pods everywhere) (λ t. env.list_pods t everywhere))
    return tt

  configure : Start → Proc S (Unit {0})
  unfolding or_panic
  configure start =
      if is_empty start.use_kubeconfig
      then or_panic (call in_cluster_config env.in_cluster_config)
      else or_panic (
          call (build_config (kubeconfig_path start))
            (λ t. env.build_config t (kubeconfig_path start)))

  -- The call of ListenAndServeTLS comes back only with an error, which ends the process.
  unfoldable pub main : Start → Proc S (Unit {0})
  unfolding or_panic count_pods configure
  main start = do
    configure start
    or_panic (call new_clientset env.new_clientset)
    count_pods
    fail (start.listen (b':' ∷ decimal start.port) start.cert_file start.key_file)
