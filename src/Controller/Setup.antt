-- ===== src/Controller/Setup.antt =====
-- `SetupWithManager` and `lookupImages` of controllers/managedmcg_controller.go: which events lead
-- to a reconciliation, and of what.
pub mod Events
pub mod Sources
pub mod Watches
use mcg_osd_deployer.Base.{
  String, Bool, true, false, ◌||◌, not, Option, none, some, ◌==◌, if◌then◌else◌, is_some,
  starts_with,
}
use mcg_osd_deployer.Exec.{
  Error, errorf, Outcome, ok, err, panic, Exec, pure, lift, wrapping, ◌>>=◌, ◌>>◌,
}
use mcg_osd_deployer.Cluster.Meta.{ObjectMeta, StringMap, get_key, or_empty}
use mcg_osd_deployer.Cluster.Objects.{
  Kind, Resource, config_map, noobaa, secret, prometheus_rule, bucket_class,
}
use mcg_osd_deployer.Cluster.Platform.{Platform}
use mcg_osd_deployer.Controller.Reconciler.{
  Config, managed_mcg_name, noobaa_name, alertmanager_config_name, mon_label_key, mon_label_value,
}
use mcg_osd_deployer.Controller.Calls.{M}
use mcg_osd_deployer.Controller.Bucket.{bucket_class_added, bucket_class_deleted}

abbrev env_or_error : String → Option String → Outcome String
env_or_error why none = err (errorf why)
env_or_error why (some v) = ok v

abbrev and_then : {A B : Type 0} → Outcome A → (A → Outcome B) → Outcome B
and_then (ok a) f = f a
and_then (err e) f = err e
and_then (panic why) f = panic why

-- The images of NooBaa's core and database.
unfoldable pub lookup_images : (String → Option String) → Outcome (String × String)
lookup_images look_up_env =
    and_then
      (env_or_error "NOOBAA_CORE_IMAGE environment variable not set"
        (look_up_env "NOOBAA_CORE_IMAGE"))
      (λ core.
        and_then
          (env_or_error "NOOBAA_DB_IMAGE environment variable not set"
            (look_up_env "NOOBAA_DB_IMAGE"))
          (λ db. ok (core, db)))

-- The request that every watched object leads to: the name and namespace of the ManagedMCG.
unfoldable pub enqueue_managed_mcg_request : ObjectMeta → String × String
enqueue_managed_mcg_request object = (managed_mcg_name, object.namespace)

unfoldable pub config_map_predicate : Config → ObjectMeta → Bool
unfolding get_key
config_map_predicate c object =
    if object.name == c.addon_config_map_name
    then is_some (get_key c.addon_config_map_delete_label_key object.labels)
    else (object.name == alertmanager_config_name)

abbrev pub is_nil : StringMap → Bool
is_nil none = true
is_nil (some m) = false

unfoldable pub prometheus_rules_predicate : ObjectMeta → Bool
unfolding get_key
prometheus_rules_predicate object =
    is_nil object.labels || not (or_empty (get_key mon_label_key object.labels) == mon_label_value)

unfoldable pub secret_predicate : Config → ObjectMeta → Bool
secret_predicate c object =
    object.name == c.addon_param_secret_name
    || (object.name == c.pagerduty_secret_name
        || (object.name == c.dead_mans_snitch_secret_name
            || (object.name == c.smtp_secret_name || object.name == c.rhobs_secret_name)))

unfoldable pub noobaa_predicate : ObjectMeta → Bool
noobaa_predicate object = starts_with object.name noobaa_name

-- The predicates on bucket classes act before they let the event through.
unfoldable pub bucket_class_create_predicate : (P : Platform) → Resource bucket_class → M P Bool
bucket_class_create_predicate P object = do bucket_class_added P object; pure true

unfoldable pub bucket_class_delete_predicate : (P : Platform) → Resource bucket_class → M P Bool
bucket_class_delete_predicate P object =
    if object.metadata.name == "noobaa-default-bucket-class"
    then pure true
    else (bucket_class_deleted P object >>= λ u. pure true)

-- The request that a bucket class leads to, which is the same.
unfoldable pub enqueue_bucket_class_request : ObjectMeta → String × String
enqueue_bucket_class_request object = (managed_mcg_name, object.namespace)

-- The watches on objects that a ManagedMCG does not own: the request that an event on an object of a
-- kind leads to, where a predicate does not hold it back.
unfoldable pub watched_request : Config → Kind → ObjectMeta → Option (String × String)
unfolding enqueue_managed_mcg_request enqueue_bucket_class_request config_map_predicate
    noobaa_predicate secret_predicate prometheus_rules_predicate
watched_request c config_map o =
    if config_map_predicate c o then some (enqueue_managed_mcg_request o) else none
watched_request c noobaa o =
    if noobaa_predicate o then some (enqueue_managed_mcg_request o) else none
watched_request c secret o =
    if secret_predicate c o then some (enqueue_managed_mcg_request o) else none
watched_request c prometheus_rule o =
    if prometheus_rules_predicate o then some (enqueue_managed_mcg_request o) else none
watched_request c bucket_class o = some (enqueue_bucket_class_request o)
watched_request c _ o = none

-- `SetupWithManager`. The call of the controller builder, which registers the reconciler with its
-- watches, is a parameter.
unfoldable pub setup_with_manager :
    {S : Type 0}
    → (Config → Exec S (Unit {0}))
    → (String → Option String)
    → (String × String → Config)
    → Exec S (Unit {0})
unfolding lookup_images ◌>>=◌ lift wrapping
setup_with_manager complete look_up_env configured = do
  images ← lift (lookup_images look_up_env)
  wrapping "error setting up ManagedMCG controller" (complete (configured images))
