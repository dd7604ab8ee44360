-- ===== src/Controller/Monitoring/Labels.antt =====
-- `reconcileMonitoringResources`: the label by which Prometheus selects what it monitors.
pub mod Marks
use mcg_osd_deployer.Base.{String, Option, none, some, List, ◌==◌, if◌then◌else◌}
use mcg_osd_deployer.Exec.{pure, wrapping, ◌>>=◌, ◌>>◌, for_each}
use mcg_osd_deployer.Utils.{add_label, remove_label}
use mcg_osd_deployer.Cluster.Meta.{ObjectMeta, get_key}
use mcg_osd_deployer.Cluster.Objects.{Kind, Resource, pod_monitor, service_monitor, prometheus_rule}
use mcg_osd_deployer.Cluster.Platform.{Platform}
use mcg_osd_deployer.Controller.Reconciler.{mon_label_key, mon_label_value}
use mcg_osd_deployer.Controller.Calls.{M, list, update}

unfoldable pub label_monitor : {k : Kind} → Resource k → Resource k
unfolding add_label
label_monitor o = record o { metadata = add_label o.metadata mon_label_key mon_label_value }

abbrev holds_value : String → Option String → ObjectMeta → ObjectMeta
holds_value value none m = m
holds_value value (some v) m = if v == value then remove_label m mon_label_key else m

-- The rules that the MCG operator deploys are kept out, and all others are taken in.
unfoldable pub label_rule : Resource prometheus_rule → Resource prometheus_rule
unfolding label_monitor
label_rule o =
    if o.metadata.name == "noobaa-prometheus-rules"
    then record o {
      metadata = holds_value mon_label_value (get_key mon_label_key o.metadata.labels) o.metadata;
    }
    else label_monitor o

module _ (P : Platform) where
  unfoldable pub update_item : (k : Kind) → (Resource k → Resource k) → Resource k → M P (Unit {0})
  update_item k change o = do o' ← update P k (change o); pure tt

  unfoldable pub reconcile_monitoring_resources : M P (Unit {0})
  unfolding list
  reconcile_monitoring_resources = do
    pod_monitors ← wrapping "could not list pod monitors" (list P pod_monitor)
    for_each (update_item pod_monitor label_monitor) pod_monitors
    service_monitors ← wrapping "could not list service monitors" (list P service_monitor)
    for_each (update_item service_monitor label_monitor) service_monitors
    rules ← wrapping "could not list prometheus rules" (list P prometheus_rule)
    for_each (update_item prometheus_rule label_rule) rules
