-- ===== src/Startup.antt =====
-- main.go: the environment, the reconciler's configuration, and the first ManagedMCG resource.
pub mod Scheme
pub mod Environment
pub mod Main
use mcg_osd_deployer.Base.{String, ◌<>◌, Bool, Option, none, some, List, [], ◌∷◌, if◌then◌else◌}
use mcg_osd_deployer.Base.Int.{pos}
use mcg_osd_deployer.Base.Dict.{Dict, lookup, insert}
use mcg_osd_deployer.Exec.{Error, errorf, wrapf, Outcome, ok, err, panic, Exec}
use mcg_osd_deployer.Cluster.Meta.{or_empty}
use mcg_osd_deployer.Cluster.Objects.{Resource, managed_mcg}
use mcg_osd_deployer.Cluster.Zero.{fresh}
use mcg_osd_deployer.Cluster.Platform.{Platform}
use mcg_osd_deployer.Controller.Reconciler.{Config, managed_mcg_name, managed_mcg_finalizer}

abbrev pub namespace_key : String
namespace_key = "NAMESPACE"

abbrev pub addon_name_key : String
addon_name_key = "ADDON_NAME"

-- The keys of the map that `setupEnvMap` starts from.
abbrev pub env_keys : List String
env_keys =
    namespace_key ∷ addon_name_key ∷ "SOP_ENDPOINT" ∷ "ALERT_SMTP_FROM_ADDR" ∷ "RHOBS_ENDPOINT"
    ∷ "RH_SSO_TOKEN_ENDPOINT" ∷ "ADDON_ENVIRONMENT" ∷ []

abbrev pub blank_env : List String → Dict String
blank_env [] = []
blank_env (key ∷ keys) = (key, "") ∷ blank_env keys

-- `for key := range envMap { ... }`, over the keys in the order in which Go happens to give them.
unfoldable pub env_loop :
    (String → Option String) → List String → Dict String → Outcome (Dict String)
unfolding insert
env_loop look_up_env [] env = ok env
env_loop look_up_env (key ∷ keys) env = elim (look_up_env key) [
  | none ↦ err (errorf "environment variable not set")
  | some value ↦ env_loop look_up_env keys (insert key value env)
]

unfoldable pub setup_env_map : (String → Option String) → List String → Outcome (Dict String)
unfolding env_loop
setup_env_map look_up_env order = env_loop look_up_env order (blank_env env_keys)

abbrev pub env_value : Dict String → String → String
env_value env key = or_empty (lookup key env)

-- The reconciler that `main` builds, with the two images that `lookupImages` adds.
unfoldable pub reconciler_config : Dict String → String × String → Config
unfolding lookup
reconciler_config env (core, db) =
    let addon_name = env_value env addon_name_key in
    record {
      addon_param_secret_name = "addon-" <> (addon_name <> "-parameters");
      addon_config_map_name = addon_name;
      addon_config_map_delete_label_key = "api.openshift.com/addon-" <> (addon_name <> "-delete");
      pagerduty_secret_name = addon_name <> "-pagerduty";
      dead_mans_snitch_secret_name = addon_name <> "-deadmanssnitch";
      smtp_secret_name = addon_name <> "-smtp";
      sop_endpoint = env_value env "SOP_ENDPOINT";
      console_port = pos 9002;
      alert_smtp_from = env_value env "ALERT_SMTP_FROM_ADDR";
      customer_notification_html_path = "templates/customernotification.html";
      rhobs_secret_name = addon_name <> "-prom-remote-write";
      rhobs_endpoint = env_value env "RHOBS_ENDPOINT";
      rhsso_token_endpoint = env_value env "RH_SSO_TOKEN_ENDPOINT";
      addon_environment = env_value env "ADDON_ENVIRONMENT";
      addon_variant = addon_name;
      noobaa_core_image = core;
      noobaa_db_image = db;
    }

-- The resource that `ensureManagedMCG` asks for.
unfoldable pub initial_managed_mcg : String → Resource managed_mcg
unfolding fresh
initial_managed_mcg namespace =
    let o = fresh managed_mcg managed_mcg_name namespace in
    let m = o.metadata in
    record o { metadata = record m { finalizers = managed_mcg_finalizer ∷ [] } }

module _ (P : Platform) where
  unfoldable pub created_or_there : Outcome (Resource managed_mcg) → Outcome (Unit {0})
  created_or_there (ok m) = ok tt
  created_or_there (err e) =
      if P.is_already_exists e then ok tt else err (wrapf "failed to create ManagedMCG resource" e)
  created_or_there (panic why) = panic why

  unfoldable pub ensure_managed_mcg : Dict String → Exec P.State (Unit {0})
  unfolding created_or_there initial_managed_mcg lookup
  ensure_managed_mcg env s =
      let (x, s') = P.create managed_mcg (initial_managed_mcg (env_value env namespace_key)) s in
      (created_or_there x, s')
