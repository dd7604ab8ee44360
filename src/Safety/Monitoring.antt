-- ===== src/Safety/Monitoring.antt =====
-- The reconciliation of the monitoring only creates and updates objects of the kinds that are kept up.
use mcg_osd_deployer.Base.{String, Option, none, some, List, [], ◌∷◌}
use mcg_osd_deployer.Base.Dict.{Dict}
use mcg_osd_deployer.Exec.{Error}
use mcg_osd_deployer.Cluster.Monitoring.{
  AlertmanagerEndpoints, PrometheusBody, RemoteWriteSpec, StrategyDeploymentSpec,
}
use mcg_osd_deployer.Exec.Keeps.{Keeps, Keeps-bind, keeps_rules}
use mcg_osd_deployer.Cluster.Objects.{
  Kind, Resource, prometheus, secret, alertmanager_config, prometheus_rule,
}
use mcg_osd_deployer.Cluster.Platform.{Platform, IsLawful, Request}
use mcg_osd_deployer.Safety.Within.{Within, within_rules}
use mcg_osd_deployer.Controller.Reconciler.{Config, Reconciler}
use mcg_osd_deployer.Controller.Monitoring.Network.{
  reconcile_ingress_network_policy, reconcile_kube_rbac_config_map, reconcile_prometheus_service,
  reconcile_prometheus_proxy_network_policy,
}
use mcg_osd_deployer.Controller.Monitoring.Metrics.{
  first_endpoint, first_remote_write, containers_of, unless_not_found, remote_write_with,
  configure_rhobs_remote_write, prometheus_as, reconcile_prometheus,
  reconcile_alert_relabel_config_secret,
}
use mcg_osd_deployer.Controller.Monitoring.Alerts.{
  reconcile_alertmanager, unless_fetched, require_entry, check_prerequisites,
  alertmanager_config_as, reconcile_alertmanager_config,
}
use mcg_osd_deployer.Controller.Monitoring.Labels.{update_item, reconcile_monitoring_resources}
use mcg_osd_deployer.Controller.Monitoring.Rules.{
  reconcile_dms_prometheus_rule, noobaa_rules_as, reconcile_noobaa_rules,
}
use mcg_osd_deployer.Controller.Monitoring.{reconcile_alert_monitoring}
use mcg_osd_deployer.Safety.Kinds.{IsKept, IsUpkeep}

module _ (P : Platform) (L : IsLawful P) (A : Request → Type 0) (base : List Request)
    (upkeep : (q : Request) → IsUpkeep q → A q) where
  abbrev I : Reconciler × P.State → Type 0
  I = Within P L A base

  pub ingress-Keeps : Keeps I (reconcile_ingress_network_policy P)
  unfolding reconcile_ingress_network_policy
  ingress-Keeps = search (within_rules) depth 14

  pub config_map-Keeps : Keeps I (reconcile_kube_rbac_config_map P)
  unfolding reconcile_kube_rbac_config_map
  config_map-Keeps = search (within_rules) depth 14

  pub service-Keeps : Keeps I (reconcile_prometheus_service P)
  unfolding reconcile_prometheus_service
  service-Keeps = search (within_rules) depth 14

  pub proxy_policy-Keeps : Keeps I (reconcile_prometheus_proxy_network_policy P)
  unfolding reconcile_prometheus_proxy_network_policy
  proxy_policy-Keeps = search (within_rules) depth 14

  relabel_secret-Keeps : Keeps I (reconcile_alert_relabel_config_secret P)
  unfolding reconcile_alert_relabel_config_secret
  relabel_secret-Keeps = search (within_rules) depth 14

  first_endpoint-Keeps :
      (n : String) (xs : List AlertmanagerEndpoints) → Keeps I (first_endpoint P n xs)
  first_endpoint-Keeps n [] = search keeps_rules
  first_endpoint-Keeps n (x ∷ xs) = search keeps_rules

  first_remote_write-Keeps :
      (c : Config) (a : String) (xs : List RemoteWriteSpec) → Keeps I (first_remote_write P c a xs)
  first_remote_write-Keeps c a [] = search keeps_rules
  first_remote_write-Keeps c a (x ∷ xs) = search keeps_rules

  containers_of-Keeps : (d : Option StrategyDeploymentSpec) → Keeps I (containers_of P d)
  containers_of-Keeps none = search keeps_rules
  containers_of-Keeps (some d) = search keeps_rules

  unless_not_found-Keeps : (e : Option Error) → Keeps I (unless_not_found P e)
  unless_not_found-Keeps none = search keeps_rules
  unless_not_found-Keeps (some e) = search keeps_rules

  remote_write-Keeps :
      (c : Config) (entries : Dict String) (spec : PrometheusBody)
      → Keeps I (remote_write_with P c entries spec)
  unfolding remote_write_with
  remote_write-Keeps c entries spec = search (keeps_rules, first_remote_write-Keeps) depth 14

  rhobs-Keeps : (spec : PrometheusBody) → Keeps I (configure_rhobs_remote_write P spec)
  unfolding configure_rhobs_remote_write
  rhobs-Keeps spec = search (within_rules, remote_write-Keeps, unless_not_found-Keeps) depth 14

  prometheus_as-Keeps : (o : Resource prometheus) → Keeps I (prometheus_as P o)
  unfolding prometheus_as
  prometheus_as-Keeps o = search (within_rules, rhobs-Keeps, containers_of-Keeps) depth 18

  prometheus-Keeps : Keeps I (reconcile_prometheus P)
  unfolding reconcile_prometheus
  prometheus-Keeps = search (within_rules, prometheus_as-Keeps) depth 14

  alertmanager-Keeps : Keeps I (reconcile_alertmanager P)
  unfolding reconcile_alertmanager
  alertmanager-Keeps = search within_rules depth 14

  unless_fetched-Keeps :
      (why : String) (o : Resource secret) (e : Option Error) → Keeps I (unless_fetched P why o e)
  unfolding unless_fetched
  unless_fetched-Keeps why o none = search keeps_rules
  unless_fetched-Keeps why o (some e) = search keeps_rules

  require_entry-Keeps :
      (why : String) (entries : Dict String) (key : String)
      → Keeps I (require_entry P why entries key)
  unfolding require_entry
  require_entry-Keeps why entries key = search keeps_rules

  prerequisites-Keeps : (o : Resource alertmanager_config) → Keeps I (check_prerequisites P o)
  unfolding check_prerequisites
  prerequisites-Keeps o = search (within_rules, unless_fetched-Keeps, require_entry-Keeps) depth 30

  config_as-Keeps : (o : Resource alertmanager_config) → Keeps I (alertmanager_config_as P o)
  unfolding alertmanager_config_as
  config_as-Keeps o =
      search (within_rules, prerequisites-Keeps, unless_fetched-Keeps, require_entry-Keeps) depth 40

  alertmanager_config-Keeps : Keeps I (reconcile_alertmanager_config P)
  unfolding reconcile_alertmanager_config
  alertmanager_config-Keeps = search (within_rules, config_as-Keeps) depth 14

  update_item-Keeps :
      (k : Kind) (f : Resource k → Resource k) (o : Resource k)
      → IsKept k
      → Keeps I (update_item P k f o)
  unfolding update_item
  update_item-Keeps k f o h = search within_rules depth 14

  labels-Keeps : Keeps I (reconcile_monitoring_resources P)
  unfolding reconcile_monitoring_resources
  labels-Keeps = search (within_rules, update_item-Keeps) depth 14

  dms_rule-Keeps : Keeps I (reconcile_dms_prometheus_rule P)
  unfolding reconcile_dms_prometheus_rule
  dms_rule-Keeps = search within_rules depth 14

  noobaa_rules_as-Keeps : (o : Resource prometheus_rule) → Keeps I (noobaa_rules_as P o)
  unfolding noobaa_rules_as
  noobaa_rules_as-Keeps o = search within_rules depth 14

  noobaa_rules-Keeps : Keeps I (reconcile_noobaa_rules P)
  unfolding reconcile_noobaa_rules
  noobaa_rules-Keeps = search (within_rules, noobaa_rules_as-Keeps) depth 14

  pub monitoring-Keeps : Keeps I (reconcile_alert_monitoring P)
  unfolding reconcile_alert_monitoring
  monitoring-Keeps =
      search
        (
          Keeps-bind, relabel_secret-Keeps, prometheus-Keeps, alertmanager-Keeps,
          alertmanager_config-Keeps, labels-Keeps, dms_rule-Keeps, noobaa_rules-Keeps,
        )
        depth 14
