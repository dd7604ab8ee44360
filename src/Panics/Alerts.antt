-- ===== src/Panics/Alerts.antt =====
-- The resources of the alerts: no path panics.
use mcg_osd_deployer.Base.{suc, String, Option, none, some, List, ◌⊎◌, inl, inr, length}
use mcg_osd_deployer.Base.Dict.{Dict}
use mcg_osd_deployer.Exec.{Error}
use mcg_osd_deployer.Exec.Calm.{IsCalm, Calm, Calm-pure, Calm-bind, calm_rules}
use mcg_osd_deployer.Controller.Calls.{or_panics}
use mcg_osd_deployer.Cluster.Monitoring.{RuleGroup}
use mcg_osd_deployer.Cluster.Objects.{Kind, Resource, secret, alertmanager_config, prometheus_rule}
use mcg_osd_deployer.Cluster.Platform.{Platform, IsLawful}
use mcg_osd_deployer.Controller.Reconciler.{Config}
use mcg_osd_deployer.Panics.Calls.{Behaves, ListsComplete, call_rules}
use mcg_osd_deployer.Controller.Monitoring.Alerts.{
  file_text, reconcile_alertmanager, unless_fetched, require_entry, check_prerequisites,
  alertmanager_config_as, reconcile_alertmanager_config,
}
use mcg_osd_deployer.Controller.Monitoring.Labels.{update_item, reconcile_monitoring_resources}
use mcg_osd_deployer.Controller.Monitoring.Rules.{
  unmarshalled, reconcile_dms_prometheus_rule, noobaa_rules_as, reconcile_noobaa_rules,
}
use mcg_osd_deployer.Controller.Monitoring.{reconcile_alert_monitoring}
use mcg_osd_deployer.Controller.Monitoring.Receivers.{
  ReceiverInputs, alerting_address_key, addresses_from, config_receiver,
}
use mcg_osd_deployer.Controller.Monitoring.Receivers.Addresses.{alerting_addresses_total}
use mcg_osd_deployer.Controller.Monitoring.Receivers.Template.{config_receiver-template}
use mcg_osd_deployer.Templates.Alerts.{alertmanager_config_template}
use mcg_osd_deployer.Panics.Prometheus.{relabel_secret-Calm, prometheus-Calm}

module _ (P : Platform) (L : IsLawful P) (B : Behaves P) where
  alertmanager-Calm : Calm (reconcile_alertmanager P)
  unfolding reconcile_alertmanager
  alertmanager-Calm = search call_rules depth 14

  unless_fetched-Calm :
      (why : String) (o : Resource secret) (e : Option Error) → Calm (unless_fetched P why o e)
  unfolding unless_fetched
  unless_fetched-Calm why o none = search calm_rules
  unless_fetched-Calm why o (some e) = search calm_rules

  require_entry-Calm :
      (why : String) (entries : Dict String) (key : String) → Calm (require_entry P why entries key)
  unfolding require_entry
  require_entry-Calm why entries key = search calm_rules

  prerequisites-Calm : (o : Resource alertmanager_config) → Calm (check_prerequisites P o)
  unfolding check_prerequisites
  prerequisites-Calm o = search (call_rules, unless_fetched-Calm, require_entry-Calm) depth 30

  file_text-IsCalm : (x : Error ⊎ String) → IsCalm (file_text P x)
  file_text-IsCalm (inl e) = tt
  file_text-IsCalm (inr text) = tt

  -- The fuel of the loop over the addresses is enough.
  addresses-Calm :
      (params : Dict String)
      → Calm (
          or_panics P
            (addresses_from (alerting_address_key P.sprint) params (suc (length params)) 0))
  addresses-Calm params =
      let (out, e, run) = alerting_addresses_total P L params in rw e (Calm-pure out)

  -- The template has all that is filled in.
  receiver-Calm :
      (c : Config) (x : ReceiverInputs)
      → Calm (or_panics P (config_receiver P.join_host_port c x alertmanager_config_template))
  receiver-Calm c x =
      let (out, e, names, root, routes) = config_receiver-template P.join_host_port c x in
      rw e (Calm-pure out)

  config_as-Calm : (o : Resource alertmanager_config) → Calm (alertmanager_config_as P o)
  unfolding alertmanager_config_as
  config_as-Calm o =
      search
        (
          call_rules, prerequisites-Calm, unless_fetched-Calm, require_entry-Calm, file_text-IsCalm,
          addresses-Calm, receiver-Calm,
        )
        depth 40

  alertmanager_config-Calm : Calm (reconcile_alertmanager_config P)
  unfolding reconcile_alertmanager_config
  alertmanager_config-Calm = search (call_rules, config_as-Calm) depth 14

  update_item-Calm :
      (k : Kind) (f : Resource k → Resource k) (o : Resource k) → Calm (update_item P k f o)
  unfolding update_item
  update_item-Calm k f o = search call_rules depth 14

  labels-Calm : Calm (reconcile_monitoring_resources P)
  unfolding reconcile_monitoring_resources
  labels-Calm = search (call_rules, update_item-Calm) depth 14

  dms_rule-Calm : Calm (reconcile_dms_prometheus_rule P)
  unfolding reconcile_dms_prometheus_rule
  dms_rule-Calm = search call_rules depth 14

  unmarshalled-IsCalm : (x : Error ⊎ List RuleGroup) → IsCalm (unmarshalled P x)
  unmarshalled-IsCalm (inl e) = tt
  unmarshalled-IsCalm (inr groups) = tt

  noobaa_rules_as-Calm : (o : Resource prometheus_rule) → Calm (noobaa_rules_as P o)
  unfolding noobaa_rules_as
  noobaa_rules_as-Calm o = search (call_rules, unmarshalled-IsCalm) depth 14

  noobaa_rules-Calm : Calm (reconcile_noobaa_rules P)
  unfolding reconcile_noobaa_rules
  noobaa_rules-Calm = search (call_rules, noobaa_rules_as-Calm) depth 14

module _ (P : Platform) (L : IsLawful P) (B : Behaves P) (complete : ListsComplete P) where
  pub monitoring-Calm : Calm (reconcile_alert_monitoring P)
  unfolding reconcile_alert_monitoring
  monitoring-Calm =
      search
        (
          Calm-bind, relabel_secret-Calm, prometheus-Calm, alertmanager-Calm,
          alertmanager_config-Calm, labels-Calm, dms_rule-Calm, noobaa_rules-Calm,
        )
        depth 14
