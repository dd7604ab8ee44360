-- ===== src/Panics/Status.antt =====
-- The status and what is read before it: no path panics.
use mcg_osd_deployer.Base.Int.{ℤ}
use mcg_osd_deployer.Base.{String, Option, none, some}
use mcg_osd_deployer.Exec.{Error}
use mcg_osd_deployer.Exec.Calm.{Calm, Calm-bind, calm_rules}
use mcg_osd_deployer.Cluster.Objects.{Resource, prometheus, alertmanager}
use mcg_osd_deployer.Cluster.Platform.{Platform}
use mcg_osd_deployer.Controller.Status.{
  update_component_status, update_noobaa_component_status, update_prometheus_component_status,
  update_alertmanager_component_status, update_console_component_status, stateful_set_state,
  deployment_state, prometheus_answer, alertmanager_answer, console_answer,
}
use mcg_osd_deployer.Controller.Phases.{verify_addon_deletion_key, update_addon_params}
use mcg_osd_deployer.Panics.Calls.{Behaves, call_rules}

module _ (P : Platform) (B : Behaves P) where
  pub verify-Calm : Calm (verify_addon_deletion_key P)
  unfolding verify_addon_deletion_key
  verify-Calm = search call_rules depth 14

  pub addon_params-Calm : Calm (update_addon_params P)
  unfolding update_addon_params
  addon_params-Calm = search call_rules depth 14

  noobaa_status-Calm : Calm (update_noobaa_component_status P)
  unfolding update_noobaa_component_status
  noobaa_status-Calm = search call_rules depth 14

  stateful_set-Calm : (name : String) (n : ℤ) → Calm (stateful_set_state P name n)
  unfolding stateful_set_state
  stateful_set-Calm name n = search call_rules depth 14

  prometheus_answer-Calm :
      (e : Option Error) (o : Resource prometheus) → Calm (prometheus_answer P e o)
  unfolding prometheus_answer
  prometheus_answer-Calm none o = search stateful_set-Calm
  prometheus_answer-Calm (some e) o = search calm_rules

  prometheus_status-Calm : Calm (update_prometheus_component_status P)
  unfolding update_prometheus_component_status
  prometheus_status-Calm = search (call_rules, prometheus_answer-Calm) depth 14

  alertmanager_answer-Calm :
      (e : Option Error) (o : Resource alertmanager) → Calm (alertmanager_answer P e o)
  unfolding alertmanager_answer
  alertmanager_answer-Calm none o = search stateful_set-Calm
  alertmanager_answer-Calm (some e) o = search calm_rules

  alertmanager_status-Calm : Calm (update_alertmanager_component_status P)
  unfolding update_alertmanager_component_status
  alertmanager_status-Calm = search (call_rules, alertmanager_answer-Calm) depth 14

  deployment-Calm : (name : String) (n : ℤ) → Calm (deployment_state P name n)
  unfolding deployment_state
  deployment-Calm name n = search call_rules depth 14

  console_answer-Calm : (e : Option Error) → Calm (console_answer P e)
  unfolding console_answer
  console_answer-Calm none = search deployment-Calm
  console_answer-Calm (some e) = search calm_rules

  console_status-Calm : Calm (update_console_component_status P)
  unfolding update_console_component_status
  console_status-Calm = search (call_rules, console_answer-Calm) depth 14

  pub status-Calm : Calm (update_component_status P)
  unfolding update_component_status
  status-Calm =
      search
        (
          Calm-bind, noobaa_status-Calm, prometheus_status-Calm, alertmanager_status-Calm,
          console_status-Calm,
        )
        depth 10
