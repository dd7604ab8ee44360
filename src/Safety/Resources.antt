-- ===== src/Safety/Resources.antt =====
-- What `reconcileResources` and the bucket class events write.
use mcg_osd_deployer.Base.{List}
use mcg_osd_deployer.Exec.Keeps.{Keeps}
use mcg_osd_deployer.Cluster.Objects.{Resource, bucket_class, object_bucket_claim}
use mcg_osd_deployer.Cluster.Platform.{Platform, IsLawful, Request, create_request, update_request}
use mcg_osd_deployer.Controller.Reconciler.{Reconciler}
use mcg_osd_deployer.Controller.Bucket.{get_object_bucket_claim, create_claim, bucket_class_added}
use mcg_osd_deployer.Controller.Phases.{reconcile_resources}
use mcg_osd_deployer.Safety.Within.{Extends, start, Within, within_rules}
use mcg_osd_deployer.Safety.Kinds.{IsUpkeep}
use mcg_osd_deployer.Safety.Claims.{success-Keeps}
use mcg_osd_deployer.Safety.Upkeep.{reconcile_resources-Keeps}

-- `reconcileResources` only creates and updates objects, and none of them is a ManagedMCG, a bucket
-- class, a claim, a store, a deployment, a stateful set or a cluster version. CSVs and
-- monitors it only updates. It deletes nothing and writes no status, whether it succeeds or fails.
pub reconcile_resources-IsUpkeep :
    (P : Platform) (L : IsLawful P) (r : Reconciler) (s : P.State)
    → Extends IsUpkeep (L.log s) (L.log (reconcile_resources P (r, s)).1.1)
reconcile_resources-IsUpkeep P L r s =
    (reconcile_resources-Keeps P L IsUpkeep (L.log s) (λ q u. u)).at (r, s) start

-- A claim is created or updated.
abbrev pub IsClaim : Request → Type 0
IsClaim (create_request object_bucket_claim o) = Unit
IsClaim (update_request object_bucket_claim o) = Unit
IsClaim _ = ⊥

module _ (P : Platform) (L : IsLawful P) (base : List Request) where
  lookup_existing-Keeps :
      (bc : Resource bucket_class) → Keeps (Within P L IsClaim base) (get_object_bucket_claim P bc)
  unfolding get_object_bucket_claim
  lookup_existing-Keeps bc = search within_rules depth 8

  create-Keeps : (bc : Resource bucket_class) → Keeps (Within P L IsClaim base) (create_claim P bc)
  unfolding create_claim
  create-Keeps bc = search within_rules depth 12

  added-Keeps :
      (bc : Resource bucket_class) → Keeps (Within P L IsClaim base) (bucket_class_added P bc)
  unfolding bucket_class_added
  added-Keeps bc =
      search (within_rules, success-Keeps, lookup_existing-Keeps, create-Keeps) depth 14

-- The handler of a new bucket class writes nothing but object bucket claims, which it only creates
-- or updates, whatever the API server answers.
pub bucket_class_added_writes :
    (P : Platform) (L : IsLawful P) (bc : Resource bucket_class) (r : Reconciler) (s : P.State)
    → Extends IsClaim (L.log s) (L.log (bucket_class_added P bc (r, s)).1.1)
bucket_class_added_writes P L bc r s = (added-Keeps P L (L.log s) bc).at (r, s) start
