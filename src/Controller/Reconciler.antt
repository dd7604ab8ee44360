-- ===== src/Controller/Reconciler.antt =====
-- `ManagedMCGReconciler`: its fields, the constants of the package, and their initialisation at the
-- start of each reconciliation.
use mcg_osd_deployer.Base.{String, []}
use mcg_osd_deployer.Base.Int.{ℤ}
use mcg_osd_deployer.Base.Dict.{Dict}
use mcg_osd_deployer.Cluster.Api.{ReconcileStrategy}
use mcg_osd_deployer.Cluster.Objects.{
  Resource, managed_mcg, noobaa, bucket_class, backing_store, namespace_store, secret, config_map,
  service, prometheus, alertmanager, alertmanager_config, prometheus_rule, network_policy,
  console_plugin, console,
}
use mcg_osd_deployer.Cluster.Zero.{fresh}

abbrev pub managed_mcg_finalizer : String
managed_mcg_finalizer = "managedmcg.openshift.io"

abbrev pub managed_mcg_name : String
managed_mcg_name = "managedmcg"

abbrev pub deployer_csv_prefix : String
deployer_csv_prefix = "mcg-osd-deployer"

abbrev pub noobaa_finalizer : String
noobaa_finalizer = "noobaa.io/graceful_finalizer"

abbrev pub noobaa_name : String
noobaa_name = "noobaa"

abbrev pub mcgms_console_name : String
mcgms_console_name = "mcg-ms-console"

abbrev pub rhobs_config_id_secret_key : String
rhobs_config_id_secret_key = "prom-remote-write-config-id"

abbrev pub rhobs_config_secret_name : String
rhobs_config_secret_name = "prom-remote-write-config-secret"

abbrev pub alert_relabel_config_secret_key : String
alert_relabel_config_secret_key = "alertrelabelconfig.yaml"

abbrev pub alert_relabel_config_secret_name : String
alert_relabel_config_secret_name = "managed-mcg-alert-relabel-config-secret"

abbrev pub prometheus_name : String
prometheus_name = "managed-mcg-prometheus"

abbrev pub alertmanager_name : String
alertmanager_name = "managed-mcg-alertmanager"

abbrev pub alertmanager_config_name : String
alertmanager_config_name = "managed-mcg-alertmanager-config"

abbrev pub mon_label_key : String
mon_label_key = "app"

abbrev pub mon_label_value : String
mon_label_value = "managed-mcg"

-- The fields that `main` sets, which no reconciliation changes.
pub record Config : Type 0 where
  pub addon_config_map_delete_label_key : String
  pub addon_config_map_name : String
  pub addon_param_secret_name : String
  pub dead_mans_snitch_secret_name : String
  pub customer_notification_html_path : String
  pub smtp_secret_name : String
  pub sop_endpoint : String
  pub alert_smtp_from : String
  pub console_port : ℤ
  pub pagerduty_secret_name : String
  pub rhobs_secret_name : String
  pub rhobs_endpoint : String
  pub rhsso_token_endpoint : String
  pub addon_variant : String
  pub addon_environment : String
  pub noobaa_core_image : String
  pub noobaa_db_image : String

pub record Reconciler : Type 0 where
  pub config : Config
  pub namespace : String
  pub addon_params : Dict String
  pub reconcile_strategy : ReconcileStrategy
  pub managed : Resource managed_mcg
  pub the_noobaa : Resource noobaa
  pub the_prometheus : Resource prometheus
  pub the_alertmanager : Resource alertmanager
  pub console_plugin_object : Resource console_plugin
  pub noobaa_bucket_class : Resource bucket_class
  pub the_backing_store : Resource backing_store
  pub the_namespace_store : Resource namespace_store
  pub pagerduty_secret : Resource secret
  pub dead_mans_snitch_secret : Resource secret
  pub smtp_secret : Resource secret
  pub alert_relabel_config_secret : Resource secret
  pub rhobs_remote_write_config_secret : Resource secret
  pub the_alertmanager_config : Resource alertmanager_config
  pub dms_rule : Resource prometheus_rule
  pub noobaa_rules : Resource prometheus_rule
  pub prometheus_proxy_network_policy : Resource network_policy
  pub ingress_network_policy : Resource network_policy
  pub kube_rbac_config_map : Resource config_map
  pub prometheus_service : Resource service
  pub operator_console : Resource console

-- `initializeReconciler` with `initializePrometheusReconciler`: the fields of a reconciler with the
-- configuration `c`, whose last strategy was `s`, for a request.
unfoldable pub initialize_reconciler : Config → ReconcileStrategy → String → String → Reconciler
unfolding fresh
initialize_reconciler c s request_namespace request_name = record {
  config = c;
  namespace = request_namespace;
  addon_params = [];
  reconcile_strategy = s;
  managed = fresh managed_mcg request_name request_namespace;
  the_noobaa = fresh noobaa noobaa_name request_namespace;
  the_prometheus = fresh prometheus prometheus_name request_namespace;
  the_alertmanager = fresh alertmanager alertmanager_name request_namespace;
  console_plugin_object = fresh console_plugin mcgms_console_name request_namespace;
  noobaa_bucket_class = fresh bucket_class "" request_namespace;
  the_backing_store = fresh backing_store "" request_namespace;
  the_namespace_store = fresh namespace_store "" request_namespace;
  pagerduty_secret = fresh secret c.pagerduty_secret_name request_namespace;
  dead_mans_snitch_secret = fresh secret c.dead_mans_snitch_secret_name request_namespace;
  smtp_secret = fresh secret c.smtp_secret_name request_namespace;
  alert_relabel_config_secret = fresh secret alert_relabel_config_secret_name request_namespace;
  rhobs_remote_write_config_secret = fresh secret c.rhobs_secret_name request_namespace;
  the_alertmanager_config = fresh alertmanager_config alertmanager_config_name request_namespace;
  dms_rule = fresh prometheus_rule "dms-monitor-rule" request_namespace;
  noobaa_rules = fresh prometheus_rule "managed-mcg-noobaa-rules" request_namespace;
  prometheus_proxy_network_policy = fresh network_policy "prometheus-proxy-rule" request_namespace;
  ingress_network_policy = fresh network_policy "ingress-rule" request_namespace;
  kube_rbac_config_map = fresh config_map "prometheus-kube-rbac-proxy-config" request_namespace;
  prometheus_service = fresh service "prometheus" request_namespace;
  operator_console = fresh console "cluster" "";
}
