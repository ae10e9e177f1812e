-- ===== src/Manager.antt =====
-- practice/cmd/main.go: the manager is made, its parts are registered, and it is started; with the
-- SetupWithManager of each part, and the types of practice/api/v1alpha1/groupversion_info.go.
pub mod Started
use checkpoint_operator.Base.{
  List, [], ◌∷◌, Bool, true, false, not, Bytes, codes, ◌=s◌, if◌then◌else◌,
}
use checkpoint_operator.Outcome.{Outcome, ok, err, panic, wrapped}
use checkpoint_operator.Proc.{Proc, when, or_fail, on_error, return, ◌>>=◌, ◌>>◌}

-- The command line, parsed.
pub record Flags : Type 0 where
  pub metrics_addr : Bytes
  pub probe_addr : Bytes
  pub enable_leader_election : Bool
  pub secure_metrics : Bool
  pub enable_http2 : Bool

abbrev pub default_flags : Flags
default_flags = record {
  metrics_addr = codes ":8080";
  probe_addr = codes ":8081";
  enable_leader_election = false;
  secure_metrics = false;
  enable_http2 = false;
}

-- What is done to a tls.Config.
pub data TlsOption : Type 0 where
  next_protos : List Bytes → TlsOption

abbrev disable_http2 : TlsOption
disable_http2 = next_protos (codes "http/1.1" ∷ [])

abbrev tls_opts : Bool → List TlsOption
tls_opts enable_http2 = if not enable_http2 then disable_http2 ∷ [] else []

-- schema.GroupVersionKind
pub record Kind : Type 0 where
  pub group : Bytes
  pub version : Bytes
  pub kind : Bytes

-- A kind of GroupVersion.
abbrev pub of_group_version : Bytes → Kind
of_group_version kind = record {
  group = codes "api.my.domain";
  version = codes "v1alpha1";
  kind = kind;
}

abbrev pub migration_kind : Kind
migration_kind = of_group_version (codes "Migration")

-- What SchemeBuilder.Register is called with.
abbrev pub scheme_builder : List Kind
scheme_builder = migration_kind ∷ of_group_version (codes "MigrationList") ∷ []

-- utilruntime.Must
must : {A : Type 0} → Outcome A → Outcome A
must (ok a) = ok a
must (err e) = panic
must panic = panic

and_then : {A B : Type 0} → Outcome A → (A → Outcome B) → Outcome B
and_then (ok a) f = f a
and_then (err e) f = err e
and_then panic f = panic

-- The kinds that the scheme knows after init. The arguments are how client-go adds its own kinds to
-- a scheme, and how a SchemeBuilder adds what was registered.
unfoldable pub init :
    (List Kind → Outcome (List Kind))
    → (List Kind → List Kind → Outcome (List Kind))
    → Outcome (List Kind)
unfolding must and_then
init client_go add = and_then (must (client_go [])) (λ scheme. must (add scheme_builder scheme))

-- ctrl.Options, with the options of the metrics server and of the webhook server.
pub record Options : Type 0 where
  pub scheme : List Kind
  pub bind_address : Bytes
  pub secure_serving : Bool
  pub metrics_tls : List TlsOption
  pub webhook_tls : List TlsOption
  pub health_probe_bind_address : Bytes
  pub leader_election : Bool
  pub leader_election_id : Bytes

unfoldable pub options : List Kind → Flags → Options
options scheme flags = record {
  scheme = scheme;
  bind_address = flags.metrics_addr;
  secure_serving = flags.secure_metrics;
  metrics_tls = tls_opts flags.enable_http2;
  webhook_tls = tls_opts flags.enable_http2;
  health_probe_bind_address = flags.probe_addr;
  leader_election = flags.enable_leader_election;
  leader_election_id = codes "0c941f82.my.domain";
}

-- What a SetupWithManager builds: the object of For, with the labels of its spec's selector, and the
-- kinds of Owns.
pub record Controller : Type 0 where
  pub for_kind : Kind
  pub for_labels : List (Bytes × Bytes)
  pub owns : List Kind

-- The calls to controller-runtime. A controller or a webhook is registered by Complete.
pub data Action : Type 0 where
  get_config : Action
  new_manager : Options → Action
  complete_controller : Controller → Action
  complete_webhook : Kind → Action
  add_healthz_check : Action
  add_readyz_check : Action
  start : Action

-- SetupWithManager of MigrationReconciler
abbrev pub set_up_migration : Action
set_up_migration =
    complete_controller
      (record { for_kind = migration_kind; for_labels = []; owns = migration_kind ∷ [] })

-- SetupWithManager of DaemonSetReconciler
abbrev pub set_up_daemon_set : Action
set_up_daemon_set = complete_controller (record {
  for_kind = record { group = codes "apps"; version = codes "v1"; kind = codes "DaemonSet" };
  for_labels = (codes "app", codes "docker-registry") ∷ [];
  owns = [];
})

-- SetupWebhookWithManager
abbrev pub set_up_webhook : Action
set_up_webhook = complete_webhook migration_kind

-- SetupWithManager of NodeMonitorReconciler
abbrev pub set_up_node_monitor : Action
set_up_node_monitor = complete_controller (record {
  for_kind = record { group = []; version = codes "v1"; kind = codes "Node" };
  for_labels = [];
  owns = [];
})

-- How controller-runtime answers a call, after the calls before it, the newest first.
abbrev pub Host : Type 0
Host = List Action → Action → Outcome (Unit {0})

module _ (host : Host) where
  unfoldable pub act : Action → Proc (List Action) (Unit {0})
  act a done t = record { outcome = host done a; globals = a ∷ done; trace = t }

  -- The end of main, from the node monitor's controller on.
  unfoldable pub finish : Proc (List Action) (Unit {0})
  finish = do
    or_fail (act set_up_node_monitor) (λ e. wrapped "unable to create controller" e)
    or_fail (act add_healthz_check) (λ e. wrapped "unable to set up health check" e)
    or_fail (act add_readyz_check) (λ e. wrapped "unable to set up ready check" e)
    or_fail (act start) (λ e. wrapped "problem running manager" e)

  -- An error is logged, and the process ends with os.Exit(1); so it does in GetConfigOrDie.
  unfoldable pub main : List Kind → Flags → Bytes → Proc (List Action) (Unit {0})
  main scheme flags enable_webhooks = do
    or_fail (act get_config) (λ e. wrapped "unable to get kubeconfig" e)
    or_fail (act (new_manager (options scheme flags))) (λ e. wrapped "unable to start manager" e)
    or_fail (act set_up_migration) (λ e. wrapped "unable to create controller" e)
    or_fail (act set_up_daemon_set) (λ e. wrapped "unable to create controller" e)
    when (not (enable_webhooks =s codes "false"))
        (or_fail (act set_up_webhook) (λ e. wrapped "unable to create webhook" e))
    finish
