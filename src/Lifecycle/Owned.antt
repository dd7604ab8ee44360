-- ===== src/Lifecycle/Owned.antt =====
-- All the requests that the operator and the probe ever send, over every entry point.
use mcg_osd_deployer.Base.{◌≡◌, ap, subst, Bool, true, List, starts_with, String}
use mcg_osd_deployer.Base.Dict.{Dict}
use mcg_osd_deployer.Exec.{pure, ◌>>=◌}
use mcg_osd_deployer.Exec.Keeps.{Keeps, Keeps-bind, Keeps-pure, Keeps-if, Keeps-caught}
use mcg_osd_deployer.Exec.Runs.{bind_split}
use mcg_osd_deployer.Utils.Slices.{contains_self}
use mcg_osd_deployer.Cluster.Api.{ReconcileStrategy}
use mcg_osd_deployer.Cluster.Zero.{fresh}
use mcg_osd_deployer.Cluster.Objects.{
  Resource, managed_mcg, bucket_class, object_bucket_claim, cluster_service_version,
}
use mcg_osd_deployer.Cluster.Platform.{
  Platform, IsLawful, Request, create_request, update_request, delete_request, status_request,
}
use mcg_osd_deployer.Controller.Reconciler.{
  Config, Reconciler, initialize_reconciler, managed_mcg_finalizer, deployer_csv_prefix,
}
use mcg_osd_deployer.Controller.Bucket.{bucket_class_added, bucket_class_deleted}
use mcg_osd_deployer.Controller.Phases.{reconcile_phases, reconcile_initialized, reconcile}
use mcg_osd_deployer.Controller.Setup.{bucket_class_create_predicate, bucket_class_delete_predicate}
use mcg_osd_deployer.Readiness.{is_ready, readyz}
use mcg_osd_deployer.Startup.{initial_managed_mcg, ensure_managed_mcg}
use mcg_osd_deployer.Safety.Within.{Extends, start, more, Within, Keeps-delete}
use mcg_osd_deployer.Safety.Kinds.{IsUpkeep}
use mcg_osd_deployer.Safety.Removal.{IsRemoval}
use mcg_osd_deployer.Safety.Phases.{IsFinalized, verify_run}
use mcg_osd_deployer.Safety.Resources.{IsClaim, bucket_class_added_writes}
use mcg_osd_deployer.Safety.Whole.{after_get-Within}
use mcg_osd_deployer.Lifecycle.{
  Stage, Permits, maintain, finalize, retire, dismantle, release, uninstall,
}
use mcg_osd_deployer.Lifecycle.Refines.{phases_refine}

-- A request of the operator. It creates a ManagedMCG only with its finalizer, and deletes a CSV only
-- if it has the operator's prefix.
pub data Owned : Request → Type 0 where
  kept : {q : Request} → IsUpkeep q → Owned q
  removed : {q : Request} → IsRemoval q → Owned q
  claimed : {q : Request} → IsClaim q → Owned q
  claim_deleted : {o : Resource object_bucket_claim} → Owned (delete_request object_bucket_claim o)
  created : {o : Resource managed_mcg} → IsFinalized o → Owned (create_request managed_mcg o)
  marked : {o : Resource managed_mcg} → Owned (update_request managed_mcg o)
  retired : {o : Resource managed_mcg} → Owned (delete_request managed_mcg o)
  reported : {o : Resource managed_mcg} → Owned (status_request managed_mcg o)
  uninstalled :
      {o : Resource cluster_service_version}
      → starts_with o.metadata.name deployer_csv_prefix ≡ true
      → Owned (delete_request cluster_service_version o)

Permits-Owned : {stage : Stage} {asked : Bool} {q : Request} → Permits stage asked q → Owned q
Permits-Owned (maintain k) = kept k
Permits-Owned (finalize f) = marked
Permits-Owned retire = retired
Permits-Owned (dismantle d) = removed d
Permits-Owned (release n) = marked
Permits-Owned (uninstall p) = uninstalled p

module _ {A B : Request → Type 0} {base : List Request} where
  pub Extends-weaken :
      {log : List Request} → ((q : Request) → A q → B q) → Extends A base log → Extends B base log
  Extends-weaken f start = start
  Extends-weaken f (more a h) = more (f _ a) (Extends-weaken f h)

module _ {A : Request → Type 0} {base : List Request} where
  pub Extends-trans :
      {log later : List Request} → Extends A base log → Extends A log later → Extends A base later
  Extends-trans h start = h
  Extends-trans h (more a k) = more a (Extends-trans h k)

module _ (P : Platform) (L : IsLawful P) where
  phases-Owned :
      (r : Reconciler) (s : P.State)
      → Extends Owned (L.log s) (L.log (reconcile_phases P (r, s)).1.1)
  phases-Owned r s =
      let (asked, s₁, e) = verify_run P r s in
      Extends-weaken (λ q p. Permits-Owned p) (phases_refine P L r s asked (ap (λ x. x.0) e))

  pub reconcile-Owned :
      (c : Config) (strategy : ReconcileStrategy) (namespace name : String) (s : P.State)
      → Extends Owned (L.log s) (L.log (reconcile P c strategy namespace name s).2)
  unfolding reconcile reconcile_initialized ◌>>=◌
  reconcile-Owned c strategy namespace name s =
      let r = initialize_reconciler c strategy namespace name in
      let ((e, m), s₁) = P.get managed_mcg r.managed s in
      let r₁ : Reconciler = record r { managed = m } in
      let same = L.log-get managed_mcg r.managed s in
      after_get-Within P L Owned (L.log s) (λ o. reported) _ r₁ s₁ (rw same start)
        (subst (λ b. Extends Owned b (L.log (reconcile_phases P (r₁, s₁)).1.1)) same
          (phases-Owned r₁ s₁))

  claim_deleted-Keeps :
      (bc : Resource bucket_class) (base : List Request)
      → Keeps (Within P L Owned base) (bucket_class_deleted P bc)
  unfolding bucket_class_deleted
  claim_deleted-Keeps bc base =
      Keeps-bind _ _
        (Keeps-caught _ (Keeps-delete P L Owned base object_bucket_claim _ claim_deleted))
        (λ x. Keeps-pure tt)

  pub class_created-Owned :
      (bc : Resource bucket_class) (r : Reconciler) (s : P.State)
      → Extends Owned (L.log s) (L.log (bucket_class_create_predicate P bc (r, s)).1.1)
  unfolding bucket_class_create_predicate pure
  class_created-Owned bc r s =
      let h = Extends-weaken (λ q k. claimed k) (bucket_class_added_writes P L bc r s) in
      bind_split (Within P L Owned (L.log s)) (bucket_class_added P bc) _ (r, s) (λ u e. h) h

  pub class_deleted-Owned :
      (bc : Resource bucket_class) (r : Reconciler) (s : P.State)
      → Extends Owned (L.log s) (L.log (bucket_class_delete_predicate P bc (r, s)).1.1)
  unfolding bucket_class_delete_predicate
  class_deleted-Owned bc r s =
      (Keeps-if _ _ _ (Keeps-pure true)
          (Keeps-bind _ _ (claim_deleted-Keeps bc (L.log s)) (λ u. Keeps-pure true))).at
        (r, s) start

  pub probe-log :
      (name namespace : String) (s : P.State) → L.log (readyz P name namespace s).1 ≡ L.log s
  unfolding readyz is_ready
  probe-log name namespace s = L.log-get managed_mcg (fresh managed_mcg name namespace) s

  pub ensure-Owned :
      (env : Dict String) (s : P.State)
      → Extends Owned (L.log s) (L.log (ensure_managed_mcg P env s).1)
  unfolding ensure_managed_mcg initial_managed_mcg
  ensure-Owned env s = rw L.log-create (more (created (contains_self managed_mcg_finalizer)) start)
