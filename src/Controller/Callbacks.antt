-- ===== src/Controller/Callbacks.antt =====
-- The callbacks that the files of controllers/ give to `CreateOrUpdate`, by name. Those of the NooBaa
-- rules and of the cluster's console are not among them.
pub mod Drift
pub mod Settling
pub mod Drifting
use mcg_osd_deployer.Base.{◌≡◌, refl, ap, sym, String, Bool-cases, ◌==◌, ◌&&◌, not, ◌⊎◌, inl, inr}
use mcg_osd_deployer.Exec.{Error, ok, pure, lift, wrapping, ◌>>=◌}
use mcg_osd_deployer.Exec.Runs.{ok-injective}
use mcg_osd_deployer.Utils.{add_label, add_annotation}
use mcg_osd_deployer.Utils.Labels.{put-put, put-put-put}
use mcg_osd_deployer.Cluster.Meta.{ObjectMeta, StringMap, get_key, or_empty}
use mcg_osd_deployer.Cluster.Objects.{
  Kind, config_map, secret, service, network_policy, prometheus, alertmanager, alertmanager_config,
  prometheus_rule, Resource, NooBaaSpec, noobaa, object_bucket_claim, deployment, console_plugin,
}
use mcg_osd_deployer.Cluster.Platform.{Platform}
use mcg_osd_deployer.Controller.Reconciler.{Reconciler}
use mcg_osd_deployer.Controller.Calls.{M, owned, own, this}
use mcg_osd_deployer.Controller.Storage.{noobaa_as}
use mcg_osd_deployer.Controller.Bucket.{claim_as}
use mcg_osd_deployer.Controller.Plugin.{referenced, own_by_deployment}
use mcg_osd_deployer.Controller.Monitoring.Network.{
  prometheus_service_as, kube_rbac_config_map_as, owned_prometheus_service, proxy_network_policy_as,
  ingress_network_policy_as,
}
use mcg_osd_deployer.Controller.Monitoring.Metrics.{relabel_secret_as, prometheus_as}
use mcg_osd_deployer.Controller.Monitoring.Alerts.{
  alertmanager_as, check_prerequisites, alertmanager_config_as,
}
use mcg_osd_deployer.Controller.Monitoring.Rules.{dms_rule_as}

-- The callbacks of `CreateOrUpdate`, with the variables of the source that they use.
pub data Callback : Kind → Type 0 where
  kube_rbac : Callback config_map
  prometheus_service : Callback service
  proxy_policy : Callback network_policy
  ingress_policy : Callback network_policy
  relabel_secret : Callback secret
  the_prometheus : Callback prometheus
  the_alertmanager : Callback alertmanager
  the_alertmanager_config : Callback alertmanager_config
  dms_rule : Callback prometheus_rule
  the_noobaa : StringMap → String → NooBaaSpec → Callback noobaa
  claim : Resource object_bucket_claim → Callback object_bucket_claim
  plugin : Callback console_plugin
  console_service : Resource deployment → Callback service

module _ (P : Platform) where
  unfoldable pub callback : {k : Kind} → Callback k → Resource k → M P (Resource k)
  callback kube_rbac = kube_rbac_config_map_as P
  callback prometheus_service = owned_prometheus_service P
  callback proxy_policy = proxy_network_policy_as P
  callback ingress_policy = ingress_network_policy_as P
  callback relabel_secret = relabel_secret_as P
  callback the_prometheus = prometheus_as P
  callback the_alertmanager = alertmanager_as P
  callback the_alertmanager_config = alertmanager_config_as P
  callback dms_rule = dms_rule_as P
  callback (the_noobaa annotations backing_store desired) =
      λ o. pure (noobaa_as annotations backing_store desired o)
  callback (claim desired) = λ o. pure (claim_as desired o)
  callback plugin = λ o. pure o
  callback (console_service d) = own_by_deployment P d
