-- ===== src/Safety/Kinds.antt =====
-- The requests of the step that keeps the operator's resources as they should be, by their kinds.
use mcg_osd_deployer.Cluster.Objects.{
  Kind, managed_mcg, cluster_service_version, deployment, bucket_class, backing_store,
  namespace_store, object_bucket_claim, stateful_set, cluster_version, pod_monitor, service_monitor,
}
use mcg_osd_deployer.Cluster.Platform.{
  Request, create_request, update_request, delete_request, status_request,
}

-- The kinds of the objects that `reconcileResources` writes. It only reads stores, deployments,
-- stateful sets and cluster versions, and has nothing to do with bucket classes and their claims.
abbrev pub IsKept : Kind → Type 0
IsKept managed_mcg = ⊥
IsKept bucket_class = ⊥
IsKept backing_store = ⊥
IsKept namespace_store = ⊥
IsKept object_bucket_claim = ⊥
IsKept deployment = ⊥
IsKept stateful_set = ⊥
IsKept cluster_version = ⊥
IsKept _ = Unit

-- The kinds of the objects that it may create. It only updates CSVs and monitors.
abbrev pub IsMade : Kind → Type 0
IsMade cluster_service_version = ⊥
IsMade pod_monitor = ⊥
IsMade service_monitor = ⊥
IsMade k = IsKept k

-- A creation or an update of an object of such a kind.
abbrev pub IsUpkeep : Request → Type 0
IsUpkeep (create_request k o) = IsMade k
IsUpkeep (update_request k o) = IsKept k
IsUpkeep (delete_request k o) = ⊥
IsUpkeep (status_request k o) = ⊥
