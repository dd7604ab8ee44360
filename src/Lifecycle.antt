-- ===== src/Lifecycle.antt =====
-- What the operator promises about its requests, apart from how `reconcilePhases` comes to them
-- (controllers/managedmcg_controller.go): the stages of a ManagedMCG, and what each permits.
pub mod Uninstall
pub mod Refines
pub mod Owned
pub mod Deletions
pub mod Dismantling
pub mod Progress
pub mod History
pub mod Access
use mcg_osd_deployer.Base.{◌≡◌, String, Bool, true, false, not, ◌==◌, if◌then◌else◌, starts_with}
use mcg_osd_deployer.Utils.{contains}
use mcg_osd_deployer.Cluster.Api.{ComponentState, is_component_not_found}
use mcg_osd_deployer.Cluster.Meta.{ObjectMeta}
use mcg_osd_deployer.Cluster.Objects.{Resource, managed_mcg, cluster_service_version}
use mcg_osd_deployer.Cluster.Platform.{Request, update_request, delete_request}
use mcg_osd_deployer.Controller.Reconciler.{managed_mcg_finalizer, deployer_csv_prefix}
use mcg_osd_deployer.Controller.Phases.{is_zero_time}
use mcg_osd_deployer.Safety.Kinds.{IsUpkeep}
use mcg_osd_deployer.Safety.Removal.{IsRemoval}
use mcg_osd_deployer.Safety.Phases.{IsFinalized}

-- There is no ManagedMCG; it is served; it is being deleted while NooBaa is still there; it is being
-- deleted and NooBaa is gone.
pub data Stage : Type 0 where
  absent serving dismantling released : Stage

-- The stage by what is observed: the metadata of the ManagedMCG, and the state of NooBaa.
abbrev pub stage_of : ObjectMeta → ComponentState → Stage
stage_of m noobaa =
    if not (is_zero_time m.deletion_timestamp)
    then if is_component_not_found noobaa then released else dismantling
    else if not (m.uid == "")
    then serving
    else absent

-- The requests of a stage, where `asked` says whether the deletion of the addon was asked for.
pub data Permits : Stage → Bool → Request → Type 0 where
  -- Resources are brought to their desired state.
  maintain : {asked : Bool} {q : Request} → IsUpkeep q → Permits serving asked q
  -- The finalizer is put on the ManagedMCG.
  finalize :
      {asked : Bool} {o : Resource managed_mcg}
      → IsFinalized o
      → Permits serving asked (update_request managed_mcg o)
  -- The ManagedMCG is deleted, if that was asked for.
  retire : {o : Resource managed_mcg} → Permits serving true (delete_request managed_mcg o)
  -- Bucket classes, NooBaa and the stores are taken down.
  dismantle : {asked : Bool} {q : Request} → IsRemoval q → Permits dismantling asked q
  -- The finalizer is taken off.
  release :
      {asked : Bool} {o : Resource managed_mcg}
      → contains o.metadata.finalizers managed_mcg_finalizer ≡ false
      → Permits released asked (update_request managed_mcg o)
  -- The operator's own CSV is deleted, if that was asked for.
  uninstall :
      {o : Resource cluster_service_version}
      → starts_with o.metadata.name deployer_csv_prefix ≡ true
      → Permits absent true (delete_request cluster_service_version o)
