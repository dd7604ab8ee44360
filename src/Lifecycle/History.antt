-- ===== src/Lifecycle/History.antt =====
-- Histories of the operator: reconciliations, handlers of bucket class events, starts of the program
-- and probes, in any order, with whatever others do to the cluster in between.
use mcg_osd_deployer.Base.{◌≡◌, String}
use mcg_osd_deployer.Base.Dict.{Dict}
use mcg_osd_deployer.Exec.{Outcome}
use mcg_osd_deployer.Cluster.Objects.{Resource, bucket_class}
use mcg_osd_deployer.Cluster.Platform.{Platform, IsLawful}
use mcg_osd_deployer.Controller.Reconciler.{Config, Reconciler}
use mcg_osd_deployer.Controller.Phases.{reconcile}
use mcg_osd_deployer.Controller.Setup.{bucket_class_create_predicate, bucket_class_delete_predicate}
use mcg_osd_deployer.Readiness.{readyz}
use mcg_osd_deployer.Startup.{ensure_managed_mcg}
use mcg_osd_deployer.Safety.Within.{Extends, start}
use mcg_osd_deployer.Lifecycle.Owned.{
  Owned, Extends-trans, reconcile-Owned, class_created-Owned, class_deleted-Owned, probe-log,
  ensure-Owned,
}

module _ (P : Platform) (L : IsLawful P) (c : Config) where
  abbrev pub after : Outcome (Unit {0}) × Reconciler × P.State → Reconciler × P.State
  after (x, r, s) = (r, s)

  -- One step, on the fields of the reconciler and the state of the platform. What others do leaves the
  -- log of the operator's requests alone.
  pub data Step : Reconciler × P.State → Reconciler × P.State → Type 0 where
    reconciled :
        (r : Reconciler) (s : P.State) (namespace name : String)
        → Step (r, s) (after (reconcile P c r.reconcile_strategy namespace name s))
    class_created :
        (w : Reconciler × P.State) (bc : Resource bucket_class)
        → Step w (bucket_class_create_predicate P bc w).1
    class_deleted :
        (w : Reconciler × P.State) (bc : Resource bucket_class)
        → Step w (bucket_class_delete_predicate P bc w).1
    started :
        (r : Reconciler) (s : P.State) (env : Dict String)
        → Step (r, s) (r, (ensure_managed_mcg P env s).1)
    probed :
        (r : Reconciler) (s : P.State) (name namespace : String)
        → Step (r, s) (r, (readyz P name namespace s).1)
    by_others : (r : Reconciler) (s s' : P.State) → L.log s' ≡ L.log s → Step (r, s) (r, s')

  pub data History (w : Reconciler × P.State) : Reconciler × P.State → Type 0 where
    begin : History w w
    next : {u v : Reconciler × P.State} → History w u → Step u v → History w v

  Step-Owned : {u v : Reconciler × P.State} → Step u v → Extends Owned (L.log u.1) (L.log v.1)
  Step-Owned (reconciled r s namespace name) =
      reconcile-Owned P L c r.reconcile_strategy namespace name s
  Step-Owned (class_created w bc) = class_created-Owned P L bc w.0 w.1
  Step-Owned (class_deleted w bc) = class_deleted-Owned P L bc w.0 w.1
  Step-Owned (started r s env) = ensure-Owned P L env s
  Step-Owned (probed r s name namespace) = rw (probe-log P L name namespace s) start
  Step-Owned (by_others r s s' e) = rw e start

  -- In every history, all the requests of the operator and the probe are of its own kinds: what a
  -- reconciliation keeps up, the removal of NooBaa with its stores and bucket classes, claims, the
  -- ManagedMCG, which is created only with the finalizer, and the deletion of a CSV, which has the
  -- operator's prefix. In between others may do anything to the cluster.
  pub History-Owned :
      {w v : Reconciler × P.State} → History w v → Extends Owned (L.log w.1) (L.log v.1)
  History-Owned begin = start
  History-Owned (next h st) = Extends-trans (History-Owned h) (Step-Owned st)
