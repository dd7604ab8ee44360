-- ===== src/Tests/Lives.antt =====
-- The theorems on stages, histories and progress, at concrete data.
use mcg_osd_deployer.Base.{◌≡◌, refl, String, false, some, List, [], ◌∷◌, ◌==◌, if◌then◌else◌}
use mcg_osd_deployer.Exec.{ok, pure, ◌>>=◌}
use mcg_osd_deployer.Utils.{contains}
use mcg_osd_deployer.Cluster.Api.{strategy_strict}
use mcg_osd_deployer.Cluster.Zero.{fresh}
use mcg_osd_deployer.Cluster.Objects.{
  Resource, managed_mcg, noobaa, bucket_class, backing_store, namespace_store,
}
use mcg_osd_deployer.Cluster.Platform.{Request, update_request}
use mcg_osd_deployer.Controller.Reconciler.{
  Reconciler, managed_mcg_finalizer, initialize_reconciler,
}
use mcg_osd_deployer.Controller.Calls.{modify, this, get}
use mcg_osd_deployer.Controller.Status.{
  update_component_status, update_noobaa_component_status, update_prometheus_component_status,
  update_alertmanager_component_status, update_console_component_status, noobaa_answer,
  failed_state, prometheus_answer, alertmanager_answer, console_answer, set_components,
}
use mcg_osd_deployer.Controller.Phases.{
  verify_addon_deletion_key, reconcile_phases, is_zero_time, reconcile,
}
use mcg_osd_deployer.Controller.Setup.{bucket_class_create_predicate}
use mcg_osd_deployer.Safety.Within.{Extends}
use mcg_osd_deployer.Lifecycle.{Permits, stage_of}
use mcg_osd_deployer.Lifecycle.Refines.{noobaa_state, phases_refine}
use mcg_osd_deployer.Lifecycle.Owned.{Owned}
use mcg_osd_deployer.Lifecycle.History.{
  after, begin, next, reconciled, class_created, History-Owned,
}
use mcg_osd_deployer.Lifecycle.Access.{IsGranted, History-IsGranted}
use mcg_osd_deployer.Lifecycle.Progress.{finalizer_given_up, with_status, deletion_dismantles}
use mcg_osd_deployer.Lifecycle.Deletions.{Grants, deletions}
use mcg_osd_deployer.Lifecycle.Dismantling.{dismantled}
use mcg_osd_deployer.Tests.Server.{server, server-IsLawful, not_found}
use mcg_osd_deployer.Tests.Data.{config, living, leaving, alone, stocked, reconciler, annotated}

phases_refine_example :
    let s = (verify_addon_deletion_key (server (alone living)) (reconciler living, [])).1.1 in
    let noobaa =
      noobaa_state (update_component_status (server (alone living)) (reconciler living, s)).1.0 in
    Extends
      (Permits (stage_of living.metadata noobaa) false)
      []
      (reconcile_phases (server (alone living)) (reconciler living, [])).1.1
unfolding verify_addon_deletion_key ◌>>=◌ this get pure server-IsLawful
phases_refine_example =
    phases_refine (server (alone living)) (server-IsLawful (alone living)) (reconciler living) []
      false refl

-- A reconciliation, and then the event of a new bucket class.
abbrev reconciled_once : Reconciler × List Request
reconciled_once =
    after (server (stocked living)) (server-IsLawful (stocked living)) config
      (reconcile (server (stocked living)) config strategy_strict "ns" "managedmcg" [])

History-Owned_example :
    Extends Owned []
      (bucket_class_create_predicate (server (stocked living)) annotated reconciled_once).1.1
unfolding server-IsLawful initialize_reconciler
History-Owned_example =
    History-Owned (server (stocked living)) (server-IsLawful (stocked living)) config (
      next (next begin (reconciled (reconciler living) [] "ns" "managedmcg"))
        (class_created reconciled_once annotated))

History-IsGranted_example :
    Extends IsGranted []
      (bucket_class_create_predicate (server (stocked living)) annotated reconciled_once).1.1
unfolding server-IsLawful initialize_reconciler
History-IsGranted_example =
    History-IsGranted (server (stocked living)) (server-IsLawful (stocked living)) config (
      next (next begin (reconciled (reconciler living) [] "ns" "managedmcg"))
        (class_created reconciled_once annotated))

finalizer_given_up_example :
    (o : Resource managed_mcg) × ((reconcile_phases
        (server (alone leaving))
        (reconciler leaving, [])).1.1
      ≡ update_request managed_mcg o ∷ [])
    × ((f : String)
        → contains o.metadata.finalizers f
          ≡ (if managed_mcg_finalizer == f then false else contains leaving.metadata.finalizers f))
unfolding server-IsLawful is_zero_time
finalizer_given_up_example =
    finalizer_given_up (server (alone leaving)) (server-IsLawful (alone leaving))
      (reconciler leaving) [] not_found refl refl refl

stocked-Grants : Grants (server (stocked leaving))
stocked-Grants = record { updated = λ k o s. (o, refl); deleted = λ k o s. refl }

-- No bucket class is listed once something was asked for.
listed_later :
    (q : Request) (log s : List Request)
    → s ≡ q ∷ log
    → ((server (stocked leaving)).list bucket_class (some "ns") s).0 ≡ ok []
listed_later q log [] e = cc
listed_later q log (p ∷ rest) e = refl

listed_stores :
    (s : List Request)
    → ((server (stocked leaving)).list backing_store (some "ns") s).0
      ≡ ok (fresh backing_store "s3" "ns" ∷ [])
listed_stores [] = refl
listed_stores (q ∷ log) = refl

listed_namespaces :
    (s : List Request) → ((server (stocked leaving)).list namespace_store (some "ns") s).0 ≡ ok []
listed_namespaces [] = refl
listed_namespaces (q ∷ log) = refl

deletion_dismantles_example :
    let r = (with_status (server (stocked leaving)) (reconciler leaving) []).0 in
    (n : Resource noobaa) × ((reconcile_phases
        (server (stocked leaving))
        (reconciler leaving, [])).0
      ≡ ok tt)
    × ((reconcile_phases (server (stocked leaving)) (reconciler leaving, [])).1.1
        ≡ dismantled r
            (fresh backing_store "s3" "ns" ∷ [])
            []
            n
            (deletions (annotated ∷ []) r.noobaa_bucket_class []))
unfolding verify_addon_deletion_key ◌>>=◌ this get pure modify update_component_status
    update_noobaa_component_status update_prometheus_component_status
    update_alertmanager_component_status update_console_component_status noobaa_answer failed_state
    prometheus_answer alertmanager_answer console_answer set_components server-IsLawful is_zero_time
    initialize_reconciler
deletion_dismantles_example =
    deletion_dismantles (server (stocked leaving)) (server-IsLawful (stocked leaving))
      stocked-Grants (reconciler leaving) [] (annotated ∷ []) (fresh backing_store "s3" "ns" ∷ [])
      [] refl refl refl (λ s h. listed_later _ _ s h) listed_stores listed_namespaces
