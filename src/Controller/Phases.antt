-- ===== src/Controller/Phases.antt =====
-- `Reconcile`, `reconcilePhases`, `reconcileResources`, `updateAddonParams` and
-- `verifyAddonDeletionKey` of controllers/managedmcg_controller.go.
use mcg_osd_deployer.Base.{
  ℕ, zero, suc, String, Bool, true, false, ◌&&◌, not, Option, none, some, [], ◌∷◌, ◌⊎◌, inl, inr,
  ◌==◌, if◌then◌else◌, is_some,
}
use mcg_osd_deployer.Base.Dict.{Dict, insert}
use mcg_osd_deployer.Exec.{
  Error, errorf, wrapf, Outcome, pure, raise, when, unless_error, wrapping, ◌>>=◌, ◌>>◌, caught,
}
use mcg_osd_deployer.Utils.{contains}
use mcg_osd_deployer.Cluster.Api.{
  ReconcileStrategy, strategy_none, strategy_strict, is_component_not_found,
}
use mcg_osd_deployer.Cluster.Meta.{get_key}
use mcg_osd_deployer.Cluster.Objects.{Resource, managed_mcg, config_map, secret}
use mcg_osd_deployer.Cluster.Zero.{fresh}
use mcg_osd_deployer.Cluster.Platform.{Platform}
use mcg_osd_deployer.Controller.Reconciler.{
  Config, Reconciler, initialize_reconciler, managed_mcg_finalizer,
}
use mcg_osd_deployer.Controller.Calls.{M, this, modify, on_cluster, get, delete}
use mcg_osd_deployer.Controller.Status.{update_component_status, are_components_ready_for_uninstall}
use mcg_osd_deployer.Controller.Uninstall.{
  add_managed_mcg, remove_managed_mcg, remove_noobaa, remove_olm_components,
}
use mcg_osd_deployer.Controller.Storage.{reconcile_noobaa_component, reconcile_ocs_csv}
use mcg_osd_deployer.Controller.Plugin.{ensure_console_plugin, reconcile_console_cluster}
use mcg_osd_deployer.Controller.Monitoring.{reconcile_alert_monitoring}
use mcg_osd_deployer.Controller.Monitoring.Network.{
  reconcile_kube_rbac_config_map, reconcile_prometheus_service,
  reconcile_prometheus_proxy_network_policy, reconcile_ingress_network_policy,
}

-- `timestamp.IsZero()`: the pointer is nil, or it points to the zero time.
unfoldable pub is_zero_time : Option ℕ → Bool
is_zero_time none = true
is_zero_time (some zero) = true
is_zero_time (some (suc t)) = false

-- `for key, value := range data { r.addonParams[key] = string(value) }`
unfoldable pub copy_params : Dict String → Dict String → Dict String
unfolding insert
copy_params [] params = params
copy_params ((key, value) ∷ rest) params = copy_params rest (insert key value params)

-- The strategy of the spec, where all but `none` counts as `strict`.
unfoldable pub chosen_strategy : ReconcileStrategy → ReconcileStrategy
chosen_strategy strategy_none = strategy_none
chosen_strategy _ = strategy_strict

unfoldable pub set_status_strategy : ReconcileStrategy → Resource managed_mcg → Resource managed_mcg
set_status_strategy strategy m =
    let b = m.body in
    let status = b.status in
    record m { body = record b { status = record status { reconcile_strategy = strategy } } }

module _ (P : Platform) where
  -- An error other than not found is logged, and counts as a missing key too.
  unfoldable pub verify_addon_deletion_key : M P Bool
  unfolding this get fresh get_key
  verify_addon_deletion_key = do
    r ← this P
    (e, o) ← get P config_map (fresh config_map r.config.addon_config_map_name r.namespace)
    pure (elim e [
      | none ↦ is_some (get_key r.config.addon_config_map_delete_label_key o.metadata.labels)
      | some e ↦ false
    ])

  unfoldable pub update_addon_params : M P (Unit {0})
  unfolding this modify get fresh copy_params
  update_addon_params = do
    r ← this P
    (e, o) ← get P secret (fresh secret r.config.addon_param_secret_name r.namespace)
    unless_error (λ e. errorf "failed to get the addon parameters secret") e
    modify P (λ r. record r { addon_params = copy_params o.body r.addon_params })

  unfoldable pub reconcile_resources : M P (Unit {0})
  reconcile_resources = do
    reconcile_noobaa_component P
    ensure_console_plugin P
    reconcile_console_cluster P
    reconcile_ocs_csv P
    reconcile_kube_rbac_config_map P
    reconcile_prometheus_service P
    reconcile_prometheus_proxy_network_policy P
    reconcile_alert_monitoring P
    reconcile_ingress_network_policy P

  -- The case of `reconcilePhases` where the resource is being deleted.
  unfoldable pub reconcile_deletion : M P (Unit {0})
  unfolding this
  reconcile_deletion = do
    r ← this P
    if is_component_not_found r.managed.body.status.components.noobaa
        then remove_managed_mcg P
        else remove_noobaa P

  -- The last step of the case below: a deletion that was asked for begins once all is ready.
  unfoldable pub start_deletion : Bool → M P (Unit {0})
  unfolding this
  start_deletion found_addon_deletion_key = do
    r ← this P
    when (found_addon_deletion_key && are_components_ready_for_uninstall r)
        (wrapping "failed to delete ManagedMCG" (delete P managed_mcg r.managed))

  -- The case where the resource exists.
  unfoldable pub reconcile_existing : Bool → M P (Unit {0})
  unfolding this modify chosen_strategy set_status_strategy
  reconcile_existing found_addon_deletion_key = do
    r ← this P
    when (not (contains r.managed.metadata.finalizers managed_mcg_finalizer)) (add_managed_mcg P)
    modify P (λ r. record r { reconcile_strategy = chosen_strategy r.managed.body.spec_strategy })
    update_addon_params
    reconcile_resources
    modify P (λ r. record r { managed = set_status_strategy r.reconcile_strategy r.managed })
    start_deletion found_addon_deletion_key

  -- The `switch` of `reconcilePhases`.
  unfoldable pub dispatch : Bool → M P (Unit {0})
  unfolding this is_zero_time
  dispatch found_addon_deletion_key = do
    r ← this P
    if not (is_zero_time r.managed.metadata.deletion_timestamp)
        then reconcile_deletion
        else if not (r.managed.metadata.uid == "")
        then reconcile_existing found_addon_deletion_key
        else when found_addon_deletion_key (remove_olm_components P)

  unfoldable pub reconcile_phases : M P (Unit {0})
  reconcile_phases = do
    found_addon_deletion_key ← verify_addon_deletion_key
    update_component_status P
    dispatch found_addon_deletion_key

  -- `if r.managedMCG.UID != "" { statusErr = r.Client.Status().Update(...) }`
  unfoldable pub write_status : M P (Error ⊎ Unit {0})
  unfolding this modify on_cluster
  write_status = do
    r ← this P
    if r.managed.metadata.uid == ""
        then pure (inr tt)
        else caught do
          m ← on_cluster P (P.update_status r.managed)
          modify P (λ r. record r { managed = m })

  -- Reconcile errors have priority over errors of the status update.
  unfoldable pub finish : Error ⊎ Unit {0} → Error ⊎ Unit {0} → M P (Unit {0})
  finish (inl e) status = raise (wrapf "error reconciling ManagedMCG" e)
  finish (inr u) (inl e) = raise (wrapf "error updating ManagedMCG status" e)
  finish (inr u) (inr v) = pure tt

  -- An error of the first request ends the reconciliation, but not where there is no resource.
  unfoldable pub unless_missing : Option Error → M P (Unit {0})
  unless_missing none = pure tt
  unless_missing (some e) = when (not (P.is_not_found e)) (raise e)

  -- `Reconcile` after `initializeReconciler`. The result of the source is always the empty
  -- `ctrl.Result`.
  unfoldable pub reconcile_initialized : M P (Unit {0})
  unfolding this modify get unless_missing
  reconcile_initialized = do
    r ← this P
    (e, m) ← get P managed_mcg r.managed
    modify P (λ r. record r { managed = m })
    unless_missing e
    result ← caught reconcile_phases
    status ← write_status
    finish result status

  unfoldable pub reconcile :
      Config
      → ReconcileStrategy
      → String
      → String
      → P.State
      → Outcome (Unit {0}) × Reconciler × P.State
  unfolding reconcile_initialized initialize_reconciler
  reconcile c strategy namespace name s =
      let (x, (r, s')) =
        reconcile_initialized (initialize_reconciler c strategy namespace name, s) in
      (x, r, s')
