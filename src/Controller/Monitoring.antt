-- ===== src/Controller/Monitoring.antt =====
-- controllers/monitoring_alert.go: Prometheus, Alertmanager, their rules and secrets.
pub mod Rules
pub mod Labels
pub mod Receivers
pub mod Metrics
pub mod Alerts
pub mod Network
use mcg_osd_deployer.Exec.{pure, ◌>>=◌, ◌>>◌}
use mcg_osd_deployer.Cluster.Platform.{Platform}
use mcg_osd_deployer.Controller.Calls.{M}
use Metrics.{reconcile_alert_relabel_config_secret, reconcile_prometheus}
use Alerts.{reconcile_alertmanager, reconcile_alertmanager_config}
use Labels.{reconcile_monitoring_resources}
use Rules.{reconcile_dms_prometheus_rule, reconcile_noobaa_rules}

unfoldable pub reconcile_alert_monitoring : (P : Platform) → M P (Unit {0})
reconcile_alert_monitoring P = do
  reconcile_alert_relabel_config_secret P
  reconcile_prometheus P
  reconcile_alertmanager P
  reconcile_alertmanager_config P
  reconcile_monitoring_resources P
  reconcile_dms_prometheus_rule P
  reconcile_noobaa_rules P
