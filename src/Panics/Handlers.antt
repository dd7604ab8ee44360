-- ===== src/Panics/Handlers.antt =====
-- The handlers of bucket class events, and all entry points of the operator.
use mcg_osd_deployer.Base.{String, Bool-cases, inl, inr}
use mcg_osd_deployer.Base.Dict.{Dict}
use mcg_osd_deployer.Exec.{Outcome, ok, err, panic}
use mcg_osd_deployer.Exec.Calm.{IsCalm, Calm}
use mcg_osd_deployer.Cluster.Api.{ReconcileStrategy}
use mcg_osd_deployer.Cluster.Objects.{Resource, managed_mcg, bucket_class}
use mcg_osd_deployer.Cluster.Platform.{Platform, IsLawful}
use mcg_osd_deployer.Controller.Reconciler.{Config, Reconciler}
use mcg_osd_deployer.Controller.Bucket.{
  bucket_class_ready, is_bucket_class_creation_success, get_object_bucket_claim, create_claim,
  bucket_class_added, bucket_class_deleted,
}
use mcg_osd_deployer.Controller.Phases.{reconcile}
use mcg_osd_deployer.Controller.Setup.{bucket_class_create_predicate, bucket_class_delete_predicate}
use mcg_osd_deployer.Startup.{created_or_there, ensure_managed_mcg}
use mcg_osd_deployer.Panics.Calls.{Behaves, ListsComplete, call_rules, Calm-poll}
use mcg_osd_deployer.Panics.Whole.{reconcile-IsCalm}

module _ (P : Platform) (B : Behaves P) where
  class_ready-Calm : (bc : Resource bucket_class) → Calm (bucket_class_ready P bc)
  unfolding bucket_class_ready
  class_ready-Calm bc = record { at = λ s. tt }

  success-Calm : (bc : Resource bucket_class) → Calm (is_bucket_class_creation_success P bc)
  unfolding is_bucket_class_creation_success
  success-Calm bc = search (call_rules, Calm-poll, class_ready-Calm) depth 12

  lookup_existing-Calm : (bc : Resource bucket_class) → Calm (get_object_bucket_claim P bc)
  unfolding get_object_bucket_claim
  lookup_existing-Calm bc = search call_rules depth 8

  create-Calm : (bc : Resource bucket_class) → Calm (create_claim P bc)
  unfolding create_claim
  create-Calm bc = search call_rules depth 12

  added-Calm : (bc : Resource bucket_class) → Calm (bucket_class_added P bc)
  unfolding bucket_class_added
  added-Calm bc = search (call_rules, success-Calm, lookup_existing-Calm, create-Calm) depth 14

  deleted-Calm : (bc : Resource bucket_class) → Calm (bucket_class_deleted P bc)
  unfolding bucket_class_deleted
  deleted-Calm bc = search call_rules depth 12

  class_created-Calm : (bc : Resource bucket_class) → Calm (bucket_class_create_predicate P bc)
  unfolding bucket_class_create_predicate
  class_created-Calm bc = search (call_rules, added-Calm) depth 8

  class_deleted-Calm : (bc : Resource bucket_class) → Calm (bucket_class_delete_predicate P bc)
  unfolding bucket_class_delete_predicate
  class_deleted-Calm bc = search (call_rules, deleted-Calm) depth 8

  created_or_there-IsCalm :
      (x : Outcome (Resource managed_mcg)) → IsCalm x → IsCalm (created_or_there P x)
  unfolding created_or_there
  created_or_there-IsCalm (ok m) h = tt
  created_or_there-IsCalm (err e) h = elim (Bool-cases (P.is_already_exists e)) [
    | inl t ↦ rw t tt
    | inr f ↦ rw f tt
  ]
  created_or_there-IsCalm (panic why) h = h

  ensure-Calm : (env : Dict String) → Calm (ensure_managed_mcg P env)
  unfolding ensure_managed_mcg
  ensure-Calm env = record { at = λ s. created_or_there-IsCalm _ ((B.creating managed_mcg _).at s) }

-- No entry point of the operator panics, on any path: not a whole reconciliation, not the handlers
-- of bucket class events, and not the creation of the ManagedMCG at the start. That holds where the
-- calls of the platform do not panic, whatever context they are given, and every CSV that the API
-- server lists is complete: one of the operator's prefix has a deployment of the operator's name,
-- and one of the OCS operator has the replicas of the deployments that are scaled down. Neither a
-- lookup of resource requirements, nor an index into a template, nor the fuel of the loop over the
-- addresses fails.
pub operator-IsCalm :
    (P : Platform) (L : IsLawful P) (B : Behaves P) (complete : ListsComplete P) (c : Config)
    (strategy : ReconcileStrategy) (namespace name : String) (bc : Resource bucket_class)
    (env : Dict String) (r : Reconciler) (s : P.State)
    → IsCalm (reconcile P c strategy namespace name s).0
      × IsCalm (bucket_class_create_predicate P bc (r, s)).0
      × IsCalm (bucket_class_delete_predicate P bc (r, s)).0
      × IsCalm (ensure_managed_mcg P env s).0
operator-IsCalm P L B complete c strategy namespace name bc env r s = (
  reconcile-IsCalm P L B complete c strategy namespace name s,
  (class_created-Calm P B bc).at (r, s),
  (class_deleted-Calm P B bc).at (r, s),
  (ensure-Calm P B env).at s,
)
