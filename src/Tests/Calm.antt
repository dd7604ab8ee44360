-- ===== src/Tests/Calm.antt =====
-- The theorem on panics at a concrete server, whose calls answer with values and errors.
use mcg_osd_deployer.Base.{refl, subst, Bool, true, false, Option, none, some, List, [], ◌∷◌, All}
use mcg_osd_deployer.Exec.{Error, Outcome, ok, err, panic, Exec}
use mcg_osd_deployer.Exec.Runs.{ok-injective}
use mcg_osd_deployer.Exec.Calm.{IsCalm, Calm, Calm-bind, Calm-if, Calm-raise}
use mcg_osd_deployer.Cluster.Api.{strategy_strict}
use mcg_osd_deployer.Cluster.Objects.{Kind, Resource, managed_mcg}
use mcg_osd_deployer.Cluster.Platform.{Request}
use mcg_osd_deployer.Controller.Phases.{reconcile}
use mcg_osd_deployer.Controller.Monitoring.Metrics.{deployer_deployment}
use mcg_osd_deployer.Panics.Calls.{Behaves, IsComplete, ListsComplete}
use mcg_osd_deployer.Panics.Handlers.{operator-IsCalm}
use mcg_osd_deployer.Controller.Setup.{bucket_class_create_predicate, bucket_class_delete_predicate}
use mcg_osd_deployer.Startup.{ensure_managed_mcg}
use mcg_osd_deployer.Tests.Server.{
  Scenario, server, server-IsLawful, apply, polled, status_answer, not_found?,
}
use mcg_osd_deployer.Tests.Data.{config, living, operator_csv, stocked, annotated, reconciler}

polled-IsCalm : (x : Outcome Bool) → IsCalm x → IsCalm (polled x)
polled-IsCalm (ok true) h = tt
polled-IsCalm (ok false) h = tt
polled-IsCalm (err e) h = tt
polled-IsCalm (panic why) h = h

status_answer-IsCalm : (e : Option Error) (o : Resource managed_mcg) → IsCalm (status_answer e o)
status_answer-IsCalm none o = tt
status_answer-IsCalm (some e) o = tt

apply-Calm :
    {R : Type 0} (k : Kind) (f : Resource k → Exec (R × List Request) (Resource k))
    → ((o : Resource k) → Calm (f o))
    → (x : Option Error × Resource k) → Calm (apply k f x)
apply-Calm k f kf (none, o) = Calm-bind (f o) _ (kf o) (λ o'. record { at = λ (r, s). tt })
apply-Calm k f kf (some e, o) =
    Calm-if (not_found? e) _ _ (Calm-bind (f o) _ (kf o) (λ o'. record { at = λ (r, s). tt }))
      (Calm-raise e)

server-Behaves : (c : Scenario) → Behaves (server c)
server-Behaves c = record {
  listing = λ k n. record { at = λ s. tt };
  creating = λ k o. record { at = λ s. tt };
  updating = λ k o. record { at = λ s. tt };
  deleting = λ k o. record { at = λ s. tt };
  reporting = λ o. record { at = λ s. status_answer-IsCalm c.status_error o };
  applying = λ k o f kf. apply-Calm k f kf (c.answer k o);
  polling =
      λ interval timeout condition k. record { at = λ s. polled-IsCalm (condition s).0 (k.at s) };
}

operator_csv-IsComplete : IsComplete operator_csv
unfolding deployer_deployment
operator_csv-IsComplete = record { deployed = λ h. refl; replicas = λ h. cc }

stocked-ListsComplete : ListsComplete (server (stocked living))
stocked-ListsComplete n [] items e =
    subst (All IsComplete) (ok-injective e) (operator_csv-IsComplete, tt)
stocked-ListsComplete n (q ∷ log) items e =
    subst (All IsComplete) (ok-injective e) (operator_csv-IsComplete, tt)

operator-IsCalm_example :
    let P = server (stocked living) in
    IsCalm (reconcile P config strategy_strict "ns" "managedmcg" []).0
    × IsCalm (bucket_class_create_predicate P annotated (reconciler living, [])).0
    × IsCalm (bucket_class_delete_predicate P annotated (reconciler living, [])).0
    × IsCalm (ensure_managed_mcg P (("NAMESPACE", "ns") ∷ []) []).0
operator-IsCalm_example =
    operator-IsCalm (server (stocked living)) (server-IsLawful (stocked living))
      (server-Behaves (stocked living)) stocked-ListsComplete config strategy_strict "ns"
      "managedmcg" annotated (("NAMESPACE", "ns") ∷ []) (reconciler living) []
