-- ===== src/Kubelet.antt =====
-- practice/handlers/checkpoint.go: the request that makes a kubelet checkpoint a container.
use checkpoint_operator.Base.{[], ◌++◌, Option, none, some, ◌||◌, not, Bytes, codes, leb, ltb, ◌==◌}
use checkpoint_operator.Outcome.{Outcome, ok, errorf}
use checkpoint_operator.Cluster.{Env, Response, post}
use checkpoint_operator.Proc.{Proc, call, return, give, panics, refuse, ◌>>=◌, ◌>>◌}

client_of : Outcome (Unit {0}) → Outcome (Unit {0}) → Option (Unit {0})
client_of (ok _) (ok _) = some tt
client_of _ _ = none

-- GetKubeletClient: nil where a file cannot be read. `clientCache` is never assigned, so it is nil
-- at each call.
unfoldable pub get_kubelet_client : Env → Option (Unit {0})
unfolding client_of
get_kubelet_client env = client_of env.load_key_pair env.read_ca_file

-- `address + "?timeout=%d"` with ten minutes in milliseconds
unfoldable pub full_url : Bytes → Bytes
full_url address = address ++ codes "?timeout=600000"

module _ (env : Env) {S : Type 0} where
  -- client.Do, a panic where the client is nil
  do_request : Option (Unit {0}) → Bytes → Proc S Response
  do_request none url = panics
  do_request (some _) url = call (post url) (λ t. env.post t url)

  unfoldable pub checkpoint_pod : Option (Unit {0}) → Bytes → Proc S Response
  unfolding do_request
  checkpoint_pod client address = do
    let url = full_url address
    give (env.new_request url)
    response ← do_request client url
    refuse (leb 300 response.status_code || ltb response.status_code 200)
        (errorf "unable to checkpoint the container" [])
    refuse (not (response.status_code == 200)) (errorf "unable to checkpoint the container" [])
    return response
