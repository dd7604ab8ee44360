-- ===== src/Safety/Reads.antt =====
-- The parts of a reconciliation that only read: they keep whatever the log of writes satisfies.
use mcg_osd_deployer.Base.Int.{ℤ}
use mcg_osd_deployer.Base.{String, Option, none, some, List}
use mcg_osd_deployer.Exec.{Error}
use mcg_osd_deployer.Exec.Keeps.{Keeps, Keeps-bind, keeps_rules}
use mcg_osd_deployer.Cluster.Objects.{Resource, prometheus, alertmanager}
use mcg_osd_deployer.Cluster.Platform.{Platform, IsLawful, Request}
use mcg_osd_deployer.Controller.Reconciler.{Reconciler}
use mcg_osd_deployer.Controller.Status.{
  update_component_status, update_noobaa_component_status, update_prometheus_component_status,
  update_alertmanager_component_status, update_console_component_status, stateful_set_state,
  deployment_state, prometheus_answer, alertmanager_answer, console_answer,
}
use mcg_osd_deployer.Controller.Phases.{verify_addon_deletion_key, update_addon_params}
use mcg_osd_deployer.Safety.Within.{Within, within_rules}

module _ (P : Platform) (L : IsLawful P) (A : Request → Type 0) (base : List Request) where
  abbrev I : Reconciler × P.State → Type 0
  I = Within P L A base

  pub verify-Keeps : Keeps I (verify_addon_deletion_key P)
  unfolding verify_addon_deletion_key
  verify-Keeps = search within_rules depth 14

  pub addon_params-Keeps : Keeps I (update_addon_params P)
  unfolding update_addon_params
  addon_params-Keeps = search within_rules depth 14

  noobaa_status-Keeps : Keeps I (update_noobaa_component_status P)
  unfolding update_noobaa_component_status
  noobaa_status-Keeps = search within_rules depth 14

  stateful_set-Keeps : (name : String) (n : ℤ) → Keeps I (stateful_set_state P name n)
  unfolding stateful_set_state
  stateful_set-Keeps name n = search within_rules depth 14

  prometheus_answer-Keeps :
      (e : Option Error) (o : Resource prometheus) → Keeps I (prometheus_answer P e o)
  unfolding prometheus_answer
  prometheus_answer-Keeps none o = search stateful_set-Keeps
  prometheus_answer-Keeps (some e) o = search keeps_rules

  prometheus_status-Keeps : Keeps I (update_prometheus_component_status P)
  unfolding update_prometheus_component_status
  prometheus_status-Keeps = search (within_rules, prometheus_answer-Keeps) depth 14

  alertmanager_answer-Keeps :
      (e : Option Error) (o : Resource alertmanager) → Keeps I (alertmanager_answer P e o)
  unfolding alertmanager_answer
  alertmanager_answer-Keeps none o = search stateful_set-Keeps
  alertmanager_answer-Keeps (some e) o = search keeps_rules

  alertmanager_status-Keeps : Keeps I (update_alertmanager_component_status P)
  unfolding update_alertmanager_component_status
  alertmanager_status-Keeps = search (within_rules, alertmanager_answer-Keeps) depth 14

  deployment-Keeps : (name : String) (n : ℤ) → Keeps I (deployment_state P name n)
  unfolding deployment_state
  deployment-Keeps name n = search within_rules depth 14

  console_answer-Keeps : (e : Option Error) → Keeps I (console_answer P e)
  unfolding console_answer
  console_answer-Keeps none = search deployment-Keeps
  console_answer-Keeps (some e) = search keeps_rules

  console_status-Keeps : Keeps I (update_console_component_status P)
  unfolding update_console_component_status
  console_status-Keeps = search (within_rules, console_answer-Keeps) depth 14

  pub status-Keeps : Keeps I (update_component_status P)
  unfolding update_component_status
  status-Keeps =
      search
        (
          Keeps-bind, noobaa_status-Keeps, prometheus_status-Keeps, alertmanager_status-Keeps,
          console_status-Keeps,
        )
        depth 10
