-- ===== src/Tests/Requests.antt =====
-- The theorems on requests, applied to a server with one ManagedMCG.
use mcg_osd_deployer.Base.{◌≡◌, refl, [], ◌∷◌, ◌⊎◌, inr}
use mcg_osd_deployer.Exec.{errorf, wrapf, err, pure, raise, wrapping, caught, ◌>>=◌}
use mcg_osd_deployer.Utils.{contains}
use mcg_osd_deployer.Cluster.Api.{strategy_strict}
use mcg_osd_deployer.Cluster.Objects.{managed_mcg}
use mcg_osd_deployer.Cluster.Platform.{status_request}
use mcg_osd_deployer.Controller.Calls.{this, modify, get, on_cluster, update}
use mcg_osd_deployer.Controller.Status.{
  update_component_status, update_noobaa_component_status, update_prometheus_component_status,
  update_alertmanager_component_status, update_console_component_status, noobaa_answer,
  failed_state, prometheus_answer, alertmanager_answer, console_answer, set_components,
}
use mcg_osd_deployer.Controller.Uninstall.{
  remove_noobaa, remove_managed_mcg, update_managed, set_finalizers,
}
use mcg_osd_deployer.Controller.Phases.{
  verify_addon_deletion_key, reconcile_phases, dispatch, reconcile_deletion, is_zero_time,
  reconcile_resources, reconcile_initialized, reconcile, write_status, update_addon_params,
  reconcile_existing,
}
use mcg_osd_deployer.Safety.Within.{Extends}
use mcg_osd_deployer.Safety.Kinds.{IsUpkeep}
use mcg_osd_deployer.Safety.Waiting.{IsClassDeletion, WentOn, remove_noobaa_waits}
use mcg_osd_deployer.Safety.Deletion.{IsNoDelete}
use mcg_osd_deployer.Safety.Finalizer.{IsGuarded, finalizer_kept}
use mcg_osd_deployer.Safety.Resources.{reconcile_resources-IsUpkeep}
use mcg_osd_deployer.Safety.StatusWrite.{status_written, phase_error_returned}
use mcg_osd_deployer.Safety.Whole.{reconcile_no_deletion}
use mcg_osd_deployer.Tests.Server.{server, server-IsLawful}
use mcg_osd_deployer.Tests.Data.{config, living, leaving, left_alone, alone, cut_off, reconciler}

reconcile_no_deletion_example :
    Extends IsNoDelete []
      (reconcile (server (alone living)) config strategy_strict "ns" "managedmcg" []).2
unfolding is_zero_time verify_addon_deletion_key ◌>>=◌ this get pure server-IsLawful
reconcile_no_deletion_example =
    reconcile_no_deletion (server (alone living)) (server-IsLawful (alone living)) config
      strategy_strict "ns" "managedmcg" [] refl refl

finalizer_kept_example :
    Extends IsGuarded [] (reconcile_phases (server (cut_off leaving)) (reconciler leaving, [])).1.1
unfolding verify_addon_deletion_key ◌>>=◌ this get pure modify update_component_status
    update_noobaa_component_status update_prometheus_component_status
    update_alertmanager_component_status update_console_component_status noobaa_answer failed_state
    prometheus_answer alertmanager_answer console_answer set_components server-IsLawful
finalizer_kept_example =
    finalizer_kept (server (cut_off leaving)) (server-IsLawful (cut_off leaving))
      (reconciler leaving) [] refl

remove_noobaa_waits_example :
    Extends IsClassDeletion [] (remove_noobaa (server (alone leaving)) (reconciler leaving, [])).1.1
    ⊎ WentOn
        (server (alone leaving))
        (server-IsLawful (alone leaving))
        (reconciler leaving, [])
        (remove_noobaa (server (alone leaving)) (reconciler leaving, [])).1
unfolding server-IsLawful
remove_noobaa_waits_example =
    remove_noobaa_waits (server (alone leaving)) (server-IsLawful (alone leaving))
      (reconciler leaving) []

status_written_example :
    let (r, s) = (reconcile_phases (server (alone left_alone)) (reconciler left_alone, [])).1 in
    (reconcile_initialized (server (alone left_alone)) (reconciler left_alone, [])).1.1
    ≡ status_request managed_mcg r.managed ∷ s
unfolding server-IsLawful caught verify_addon_deletion_key ◌>>=◌ this get pure modify
    update_component_status update_noobaa_component_status update_prometheus_component_status
    update_alertmanager_component_status update_console_component_status noobaa_answer failed_state
    prometheus_answer alertmanager_answer console_answer set_components reconcile_phases dispatch
    is_zero_time reconcile_deletion remove_managed_mcg update_managed update wrapping on_cluster
    set_finalizers
status_written_example =
    let (r, s) = (reconcile_phases (server (alone left_alone)) (reconciler left_alone, [])).1 in
    status_written (server (alone left_alone)) (server-IsLawful (alone left_alone))
      (reconciler left_alone) r [] s (inr tt) refl refl refl

phase_error_returned_example :
    (reconcile_initialized (server (alone living)) (reconciler living, [])).0
    ≡ err
        (wrapf "error reconciling ManagedMCG" (errorf "failed to get the addon parameters secret"))
unfolding caught verify_addon_deletion_key ◌>>=◌ this get pure modify update_component_status
    update_noobaa_component_status update_prometheus_component_status
    update_alertmanager_component_status update_console_component_status noobaa_answer failed_state
    prometheus_answer alertmanager_answer console_answer set_components reconcile_phases dispatch
    is_zero_time reconcile_existing contains update_addon_params write_status on_cluster raise
phase_error_returned_example =
    phase_error_returned (server (alone living)) (reconciler living)
      (reconcile_phases (server (alone living)) (reconciler living, [])).1 []
      (errorf "failed to get the addon parameters secret") (inr tt) refl refl refl

reconcile_resources-IsUpkeep_example :
    Extends IsUpkeep [] (reconcile_resources (server (alone living)) (reconciler living, [])).1.1
unfolding server-IsLawful
reconcile_resources-IsUpkeep_example =
    reconcile_resources-IsUpkeep (server (alone living)) (server-IsLawful (alone living))
      (reconciler living) []
