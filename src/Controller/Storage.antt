-- ===== src/Controller/Storage.antt =====
-- NooBaa itself and the OCS operator beside it: `reconcileNoobaaComponent`,
-- `setNoobaaDesiredState` and `reconcileOCSCSV` of controllers/managedmcg_controller.go.
pub mod Scaling
pub mod Annotation
use mcg_osd_deployer.Base.{
  String, Bool, true, false, Option, none, some, List, [], ◌∷◌, ◌||◌, ◌&&◌, not, ◌==◌,
  if◌then◌else◌, is_some,
}
use mcg_osd_deployer.Base.Int.{ℤ, pos, is_zero_ℤ}
use mcg_osd_deployer.Exec.{Outcome, ok, err, panic, pure, lift, when, wrapping, ◌>>=◌, ◌>>◌}
use mcg_osd_deployer.Utils.{get_resource_requirements, add_annotation}
use mcg_osd_deployer.Cluster.Api.{is_component_ready}
use mcg_osd_deployer.Cluster.Meta.{StringMap, get_key, or_empty}
use mcg_osd_deployer.Cluster.Monitoring.{StrategyDeploymentSpec, ResourceRequirements}
use mcg_osd_deployer.Cluster.Objects.{Resource, NooBaaSpec, noobaa, cluster_service_version}
use mcg_osd_deployer.Cluster.Platform.{Platform}
use mcg_osd_deployer.Controller.Reconciler.{Reconciler}
use mcg_osd_deployer.Controller.Calls.{M, this, update, get_csv_by_prefix}
use mcg_osd_deployer.Controller.Bucket.{get_default_backing_store}
use mcg_osd_deployer.Templates.Storage.{noobaa_template}

-- The names that the `switch` of `reconcileOCSCSV` lists.
unfoldable pub is_scaled : String → Bool
is_scaled name =
    name == "ocs-operator" || (name == "ocs-metrics-exporter" || name == "rook-ceph-operator")

-- One round of its loop: the deployment, and whether it was changed. A nil pointer to the replicas
-- is read through, which panics.
abbrev pub scale_replicas :
    StrategyDeploymentSpec → Option ℤ → Outcome (StrategyDeploymentSpec × Bool)
scale_replicas d none = panic "nil pointer dereference"
scale_replicas d (some n) =
    if is_zero_ℤ n then ok (d, false) else ok (record d { replicas = some (pos 0) }, true)

unfoldable pub scale_one : StrategyDeploymentSpec → Outcome (StrategyDeploymentSpec × Bool)
unfolding is_scaled
scale_one d = if is_scaled d.deployment_name then scale_replicas d d.replicas else ok (d, false)

abbrev scaled_both :
    Outcome (StrategyDeploymentSpec × Bool)
    → Outcome (List StrategyDeploymentSpec × Bool)
    → Outcome (List StrategyDeploymentSpec × Bool)
scaled_both (ok (d, changed)) (ok (ds, more)) = ok (d ∷ ds, changed || more)
scaled_both (ok x) (err e) = err e
scaled_both (ok x) (panic why) = panic why
scaled_both (err e) rest = err e
scaled_both (panic why) rest = panic why

-- The loop: the deployments, and `isChanged`.
unfoldable pub scale_down :
    List StrategyDeploymentSpec → Outcome (List StrategyDeploymentSpec × Bool)
scale_down [] = ok ([], false)
scale_down (d ∷ ds) = scaled_both (scale_one d) (scale_down ds)

-- The annotation is set where it is missing or empty and a backing store is there.
unfoldable pub noobaa_as : StringMap → String → NooBaaSpec → Resource noobaa → Resource noobaa
unfolding add_annotation get_key
noobaa_as annotations backing_store desired o =
    let key : String = "default-backing-store" in
    let b = o.body in
    let metadata =
      if or_empty (get_key key annotations) == "" && not (backing_store == "")
      then add_annotation o.metadata key backing_store
      else o.metadata in
    record { metadata = metadata; body = record b { spec = desired } }

module _ (P : Platform) where
  unfoldable pub requirements : String → M P ResourceRequirements
  requirements name = lift (get_resource_requirements name)

  -- The label that the source sets on the desired object is left out: its caller copies the spec
  -- alone.
  unfoldable pub set_noobaa_desired_state : NooBaaSpec → M P NooBaaSpec
  unfolding this requirements
  set_noobaa_desired_state desired = do
    r ← this P
    core ← requirements "noobaa-core"
    db ← requirements "noobaa-db"
    volume ← requirements "noobaa-db-vol"
    endpoint ← requirements "noobaa-endpoint"
    pure (record desired {
      core_resources = some core;
      db_resources = some db;
      db_volume_resources = some volume;
      noobaa_image = some r.config.noobaa_core_image;
      db_image = some r.config.noobaa_db_image;
      db_type = "postgres";
      endpoints = some (record {
        min_count = 1;
        max_count = 2;
        additional_virtual_hosts = [];
        endpoint_resources = some endpoint;
      });
    })

  unfoldable pub reconcile_noobaa_component : M P (Unit {0})
  unfolding this noobaa_template noobaa_as
  reconcile_noobaa_component = do
    r ← this P
    backing_store ← get_default_backing_store P
    desired ← set_noobaa_desired_state noobaa_template
    o ← wrapping "failed to reconcile Noobaa" (
        P.create_or_update noobaa r.the_noobaa
          (λ o. pure (noobaa_as r.the_noobaa.metadata.annotations backing_store desired o)))
    pure tt

  -- The update of a CSV whose deployments have been gone through.
  unfoldable pub update_scaled :
      Resource cluster_service_version → List StrategyDeploymentSpec × Bool → M P (Unit {0})
  update_scaled csv (deployments, changed) = when changed do
    csv' ←
        wrapping "failed to update OCS CSV"
          (update P cluster_service_version (record csv { body = deployments }))
    pure tt

  unfoldable pub reconcile_ocs_csv : M P (Unit {0})
  unfolding this
  reconcile_ocs_csv = do
    r ← this P
    when (is_component_ready r.managed.body.status.components.noobaa) do
      csv ← get_csv_by_prefix P "ocs-operator"
      scaled ← lift (scale_down csv.body)
      update_scaled csv scaled
