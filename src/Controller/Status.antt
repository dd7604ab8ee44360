-- ===== src/Controller/Status.antt =====
-- `updateComponentStatus` and its four parts, `CheckReplicaStatus` and
-- `areComponentsReadyForUninstall` of controllers/managedmcg_controller.go.
pub mod Table
pub mod Exact
pub mod Workloads
use mcg_osd_deployer.Base.{
  String, ◌<>◌, Bool, true, false, ◌&&◌, Option, none, some, ◌==◌, if◌then◌else◌,
}
use mcg_osd_deployer.Base.Int.{ℤ, pos, ltb_ℤ}
use mcg_osd_deployer.Exec.{Error, pure, ◌>>=◌, ◌>>◌}
use mcg_osd_deployer.Cluster.Api.{
  ComponentState, ready, pending, not_found, unknown, is_component_ready, ComponentStatusMap,
}
use mcg_osd_deployer.Cluster.Objects.{
  Resource, noobaa, prometheus, alertmanager, console_plugin, deployment, stateful_set,
}
use mcg_osd_deployer.Cluster.Zero.{fresh}
use mcg_osd_deployer.Cluster.Platform.{Platform}
use mcg_osd_deployer.Controller.Reconciler.{
  Reconciler, prometheus_name, alertmanager_name, mcgms_console_name,
}
use mcg_osd_deployer.Controller.Calls.{M, this, modify, get}

unfoldable pub check_replica_status : ℤ → ℤ → ComponentState
check_replica_status ready_replicas desired_replicas =
    if ltb_ℤ ready_replicas desired_replicas then pending else ready

-- One replica is desired where the pointer is nil.
unfoldable pub desired_replicas : Option ℤ → ℤ
desired_replicas none = pos 1
desired_replicas (some n) = n

-- `if err := r.get(...); err == nil { ... } else { ... }`, of the workload's ready replicas.
unfoldable pub replicas_or_pending : Option Error → ℤ → ℤ → ComponentState
unfolding check_replica_status
replicas_or_pending none ready_replicas desired = check_replica_status ready_replicas desired
replicas_or_pending (some e) ready_replicas desired = pending

-- The conjunction of the four component states.
unfoldable pub are_components_ready : ComponentStatusMap → Bool
are_components_ready c =
    is_component_ready c.noobaa
    && (is_component_ready c.prometheus
        && (is_component_ready c.alertmanager && is_component_ready c.console))

unfoldable pub are_components_ready_for_uninstall : Reconciler → Bool
unfolding are_components_ready
are_components_ready_for_uninstall r = are_components_ready r.managed.body.status.components

-- `r.managedMCG.Status.Components.X.State = ...`
unfoldable pub set_components : (ComponentStatusMap → ComponentStatusMap) → Reconciler → Reconciler
set_components f r =
    let m = r.managed in
    let status = m.body.status in
    record r {
      managed = record m {
        body = record (m.body) { status = record status { components = f status.components } };
      };
    }

-- The state of NooBaa by the phase of its resource.
unfoldable pub phase_state : String → ComponentState
phase_state phase = if phase == "Ready" then ready else pending

module _ (P : Platform) where
  -- The state of a component whose resource could not be fetched.
  unfoldable pub failed_state : Error → ComponentState
  failed_state e = if P.is_not_found e then not_found else unknown

  unfoldable pub noobaa_answer : Option Error → String → ComponentState
  unfolding phase_state failed_state
  noobaa_answer none phase = phase_state phase
  noobaa_answer (some e) phase = failed_state e

  unfoldable pub update_noobaa_component_status : M P (Unit {0})
  unfolding this modify get set_components
  update_noobaa_component_status = do
    r ← this P
    (e, o) ← get P noobaa r.the_noobaa
    modify P (λ r. record r { the_noobaa = o })
    modify P (set_components (λ c. record c { noobaa = noobaa_answer e o.body.phase }))

  -- The state by the replicas of a stateful set, which is pending where that cannot be fetched.
  unfoldable pub stateful_set_state : String → ℤ → M P ComponentState
  unfolding this get fresh
  stateful_set_state name desired = do
    r ← this P
    (e, set) ← get P stateful_set (fresh stateful_set name r.namespace)
    pure (replicas_or_pending e set.body desired)

  -- The `switch` on the answer to the request for the resource.
  unfoldable pub prometheus_answer : Option Error → Resource prometheus → M P ComponentState
  unfolding desired_replicas failed_state
  prometheus_answer none o =
      stateful_set_state ("prometheus-" <> prometheus_name)
        (desired_replicas o.body.prometheus_replicas)
  prometheus_answer (some e) o = pure (failed_state e)

  unfoldable pub update_prometheus_component_status : M P (Unit {0})
  unfolding this modify get set_components
  update_prometheus_component_status = do
    r ← this P
    (e, o) ← get P prometheus r.the_prometheus
    modify P (λ r. record r { the_prometheus = o })
    state ← prometheus_answer e o
    modify P (set_components (λ c. record c { prometheus = state }))

  -- The `switch` on the answer to the request for the resource.
  unfoldable pub alertmanager_answer : Option Error → Resource alertmanager → M P ComponentState
  unfolding desired_replicas failed_state
  alertmanager_answer none o =
      stateful_set_state ("alertmanager-" <> alertmanager_name)
        (desired_replicas o.body.alertmanager_replicas)
  alertmanager_answer (some e) o = pure (failed_state e)

  unfoldable pub update_alertmanager_component_status : M P (Unit {0})
  unfolding this modify get set_components
  update_alertmanager_component_status = do
    r ← this P
    (e, o) ← get P alertmanager r.the_alertmanager
    modify P (λ r. record r { the_alertmanager = o })
    state ← alertmanager_answer e o
    modify P (set_components (λ c. record c { alertmanager = state }))

  unfoldable pub deployment_state : String → ℤ → M P ComponentState
  unfolding this get fresh
  deployment_state name desired = do
    r ← this P
    (e, d) ← get P deployment (fresh deployment name r.namespace)
    pure (replicas_or_pending e d.body desired)

  unfoldable pub console_answer : Option Error → M P ComponentState
  unfolding failed_state
  console_answer none = deployment_state mcgms_console_name (pos 1)
  console_answer (some e) = pure (failed_state e)

  unfoldable pub update_console_component_status : M P (Unit {0})
  unfolding this modify get set_components
  update_console_component_status = do
    r ← this P
    (e, o) ← get P console_plugin r.console_plugin_object
    modify P (λ r. record r { console_plugin_object = o })
    state ← console_answer e
    modify P (set_components (λ c. record c { console = state }))

  unfoldable pub update_component_status : M P (Unit {0})
  unfolding ◌>>=◌
  update_component_status = do
    update_noobaa_component_status
    update_prometheus_component_status
    update_alertmanager_component_status
    update_console_component_status
