-- ===== src/Safety/Upkeep.antt =====
-- The step that keeps the operator's resources as they should be only creates and updates, and
-- leaves the ManagedMCG alone.
use mcg_osd_deployer.Base.{String, Bool, List, ◌⊎◌, inl, inr}
use mcg_osd_deployer.Exec.{Error}
use mcg_osd_deployer.Cluster.Monitoring.{StrategyDeploymentSpec}
use mcg_osd_deployer.Exec.Keeps.{Keeps, Keeps-bind, keeps_rules}
use mcg_osd_deployer.Cluster.Objects.{
  Resource, NooBaaSpec, cluster_service_version, deployment, service,
}
use mcg_osd_deployer.Cluster.Platform.{Platform, IsLawful, Request}
use mcg_osd_deployer.Safety.Within.{Within, within_rules}
use mcg_osd_deployer.Controller.Reconciler.{Reconciler}
use mcg_osd_deployer.Controller.Bucket.{get_default_backing_store}
use mcg_osd_deployer.Controller.Storage.{
  requirements, set_noobaa_desired_state, reconcile_noobaa_component, update_scaled,
  reconcile_ocs_csv,
}
use mcg_osd_deployer.Controller.Plugin.{
  unless_exists, own_by_deployment, ensure_console_plugin, reconcile_console_cluster,
}
use mcg_osd_deployer.Controller.Phases.{reconcile_resources}
use mcg_osd_deployer.Safety.Kinds.{IsUpkeep}
use mcg_osd_deployer.Safety.Monitoring.{
  ingress-Keeps, config_map-Keeps, service-Keeps, proxy_policy-Keeps, monitoring-Keeps,
}

module _ (P : Platform) (L : IsLawful P) (A : Request → Type 0) (base : List Request)
    (upkeep : (q : Request) → IsUpkeep q → A q) where
  abbrev I : Reconciler × P.State → Type 0
  I = Within P L A base

  backing_store-Keeps : Keeps I (get_default_backing_store P)
  unfolding get_default_backing_store
  backing_store-Keeps = search within_rules depth 14

  requirements-Keeps : (name : String) → Keeps I (requirements P name)
  unfolding requirements
  requirements-Keeps name = search keeps_rules

  desired_state-Keeps : (spec : NooBaaSpec) → Keeps I (set_noobaa_desired_state P spec)
  unfolding set_noobaa_desired_state
  desired_state-Keeps spec = search within_rules depth 14

  noobaa-Keeps : Keeps I (reconcile_noobaa_component P)
  unfolding reconcile_noobaa_component
  noobaa-Keeps = search (within_rules, backing_store-Keeps, desired_state-Keeps) depth 14

  update_scaled-Keeps :
      (csv : Resource cluster_service_version) (x : List StrategyDeploymentSpec × Bool)
      → Keeps I (update_scaled P csv x)
  unfolding update_scaled
  update_scaled-Keeps csv (ds, changed) = search within_rules depth 14

  ocs_csv-Keeps : Keeps I (reconcile_ocs_csv P)
  unfolding reconcile_ocs_csv
  ocs_csv-Keeps = search (within_rules, update_scaled-Keeps) depth 14

  unless_exists-Keeps :
      {B : Type 0} (why : String) (x : Error ⊎ B) → Keeps I (unless_exists P why x)
  unfolding unless_exists
  unless_exists-Keeps why (inl e) = search keeps_rules
  unless_exists-Keeps why (inr b) = search keeps_rules

  own_by_deployment-Keeps :
      (d : Resource deployment) (o : Resource service) → Keeps I (own_by_deployment P d o)
  unfolding own_by_deployment
  own_by_deployment-Keeps d o = search keeps_rules

  plugin-Keeps : Keeps I (ensure_console_plugin P)
  unfolding ensure_console_plugin
  plugin-Keeps = search (within_rules, unless_exists-Keeps, own_by_deployment-Keeps) depth 20

  console-Keeps : Keeps I (reconcile_console_cluster P)
  unfolding reconcile_console_cluster
  console-Keeps = search within_rules depth 14

  pub reconcile_resources-Keeps : Keeps I (reconcile_resources P)
  unfolding reconcile_resources
  reconcile_resources-Keeps =
      search
        (
          Keeps-bind, noobaa-Keeps, plugin-Keeps, console-Keeps, ocs_csv-Keeps, config_map-Keeps,
          service-Keeps, proxy_policy-Keeps, monitoring-Keeps, ingress-Keeps,
        )
        depth 14
