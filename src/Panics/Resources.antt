-- ===== src/Panics/Resources.antt =====
-- All that `reconcileResources` does: no path panics where the CSVs are complete.
use mcg_osd_deployer.Base.{String, Bool, List, ◌⊎◌, inl, inr}
use mcg_osd_deployer.Exec.{Error}
use mcg_osd_deployer.Exec.Calm.{
  IsCalm, Calm, Calm-pure, Calm-lift, Calm-if, Calm-after, Calm-bind, calm_rules,
}
use mcg_osd_deployer.Cluster.Meta.{ObjectMeta}
use mcg_osd_deployer.Controller.Calls.Prefix.{get_csv_by_prefix_lem}
use mcg_osd_deployer.Cluster.Monitoring.{StrategyDeploymentSpec}
use mcg_osd_deployer.Cluster.Objects.{
  Resource, NooBaaSpec, cluster_service_version, deployment, service,
}
use mcg_osd_deployer.Cluster.Platform.{Platform, IsLawful}
use mcg_osd_deployer.Panics.Calls.{
  Behaves, ListsComplete, call_rules, get_csv_by_prefix-IsComplete, Calm-this,
  Calm-get_csv_by_prefix,
}
use mcg_osd_deployer.Controller.Monitoring.Network.{
  reconcile_ingress_network_policy, reconcile_kube_rbac_config_map, reconcile_prometheus_service,
  reconcile_prometheus_proxy_network_policy,
}
use mcg_osd_deployer.Utils.{get_resource_requirements}
use mcg_osd_deployer.Controller.Bucket.{get_default_backing_store}
use mcg_osd_deployer.Controller.Storage.{
  set_noobaa_desired_state, reconcile_noobaa_component, update_scaled, reconcile_ocs_csv,
}
use mcg_osd_deployer.Controller.Storage.Scaling.{scale_down_lem}
use mcg_osd_deployer.Controller.Plugin.{
  referenced, unless_exists, own_by_deployment, ensure_console_plugin, reconcile_console_cluster,
}
use mcg_osd_deployer.Controller.Phases.{reconcile_resources}
use mcg_osd_deployer.Panics.Alerts.{monitoring-Calm}

module _ (P : Platform) (B : Behaves P) where
  ingress-Calm : Calm (reconcile_ingress_network_policy P)
  unfolding reconcile_ingress_network_policy
  ingress-Calm = search call_rules depth 14

  config_map-Calm : Calm (reconcile_kube_rbac_config_map P)
  unfolding reconcile_kube_rbac_config_map
  config_map-Calm = search call_rules depth 14

  service-Calm : Calm (reconcile_prometheus_service P)
  unfolding reconcile_prometheus_service
  service-Calm = search call_rules depth 14

  proxy_policy-Calm : Calm (reconcile_prometheus_proxy_network_policy P)
  unfolding reconcile_prometheus_proxy_network_policy
  proxy_policy-Calm = search call_rules depth 14

  backing_store-Calm : Calm (get_default_backing_store P)
  unfolding get_default_backing_store
  backing_store-Calm = search call_rules depth 14

  -- Every name that is asked for has requirements.
  desired_state-Calm : (spec : NooBaaSpec) → Calm (set_noobaa_desired_state P spec)
  unfolding set_noobaa_desired_state get_resource_requirements
  desired_state-Calm spec = search call_rules depth 20

  noobaa-Calm : Calm (reconcile_noobaa_component P)
  unfolding reconcile_noobaa_component
  noobaa-Calm = search (call_rules, backing_store-Calm, desired_state-Calm) depth 14

  update_scaled-Calm :
      (csv : Resource cluster_service_version) (x : List StrategyDeploymentSpec × Bool)
      → Calm (update_scaled P csv x)
  unfolding update_scaled
  update_scaled-Calm csv (ds, changed) = search call_rules depth 14

  unless_exists-Calm : {B : Type 0} (why : String) (x : Error ⊎ B) → Calm (unless_exists P why x)
  unfolding unless_exists
  unless_exists-Calm why (inl e) = search calm_rules
  unless_exists-Calm why (inr b) = search calm_rules

  referenced-IsCalm : (o : Resource service) (x : Error ⊎ ObjectMeta) → IsCalm (referenced P o x)
  referenced-IsCalm o (inl e) = tt
  referenced-IsCalm o (inr m) = tt

  own_by_deployment-Calm :
      (d : Resource deployment) (o : Resource service) → Calm (own_by_deployment P d o)
  unfolding own_by_deployment
  own_by_deployment-Calm d o = search (calm_rules, referenced-IsCalm)

  plugin-Calm : Calm (ensure_console_plugin P)
  unfolding ensure_console_plugin
  plugin-Calm = search (call_rules, unless_exists-Calm, own_by_deployment-Calm) depth 20

  console-Calm : Calm (reconcile_console_cluster P)
  unfolding reconcile_console_cluster
  console-Calm = search call_rules depth 14

module _ (P : Platform) (L : IsLawful P) (B : Behaves P) (complete : ListsComplete P) where
  ocs_csv-Calm : Calm (reconcile_ocs_csv P)
  unfolding reconcile_ocs_csv
  ocs_csv-Calm = Calm-bind _ _ (Calm-this P B) λ r.
      Calm-if _ _ _
        (Calm-after _ _ (Calm-get_csv_by_prefix P B "ocs-operator") λ csv w e.
          let whole = get_csv_by_prefix-IsComplete P complete "ocs-operator" w e in
          let scaled =
            scale_down_lem csv.body (whole.replicas (get_csv_by_prefix_lem P "ocs-operator" w e)) in
          Calm-bind _ _ (Calm-lift _ (rw scaled tt)) (λ x. update_scaled-Calm P B csv x))
        (Calm-pure tt)

  pub reconcile_resources-Calm : Calm (reconcile_resources P)
  unfolding reconcile_resources
  reconcile_resources-Calm =
      search
        (
          Calm-bind, noobaa-Calm, plugin-Calm, console-Calm, ocs_csv-Calm, config_map-Calm,
          service-Calm, proxy_policy-Calm, monitoring-Calm, ingress-Calm,
        )
        depth 14
