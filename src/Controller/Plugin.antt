-- ===== src/Controller/Plugin.antt =====
-- The console plugin: `ensureConsolePlugin` and `reconcileConsoleCluster` of
-- controllers/managedmcg_controller.go.
pub mod Once
use mcg_osd_deployer.Base.{
  String, Bool, true, false, none, List, [], ◌∷◌, ◌++◌, ◌⊎◌, inl, inr, if◌then◌else◌, not,
}
use mcg_osd_deployer.Exec.{
  Error, wrapf, ok, err, Outcome, pure, raise, lift, when, unless_error, wrapping, ◌>>=◌, ◌>>◌,
  caught,
}
use mcg_osd_deployer.Utils.{contains}
use mcg_osd_deployer.Cluster.Meta.{ObjectMeta}
use mcg_osd_deployer.Cluster.Objects.{Resource, deployment, service, console_plugin, console}
use mcg_osd_deployer.Cluster.Platform.{Platform}
use mcg_osd_deployer.Console.{get_deployment, get_service, get_console_plugin_cr, main_base_path}
use mcg_osd_deployer.Controller.Reconciler.{mcgms_console_name}
use mcg_osd_deployer.Controller.Calls.{M, this, on_cluster, client_get}

-- One of the cluster's consoles has the plugin.
unfoldable pub has_plugin : List (Resource console) → Bool
has_plugin [] = false
has_plugin (cluster ∷ rest) =
    if contains cluster.body mcgms_console_name then true else has_plugin rest

unfoldable pub add_plugin : Resource console → Resource console
add_plugin o = record o { body = o.body ++ (mcgms_console_name ∷ []) }

module _ (P : Platform) where
  -- `if err != nil && !errors.IsAlreadyExists(err) { return fmt.Errorf(...) }`
  unfoldable pub unless_exists : {A : Type 0} → String → Error ⊎ A → M P (Unit {0})
  unless_exists why (inl e) = if P.is_already_exists e then pure tt else raise (wrapf why e)
  unless_exists why (inr a) = pure tt

  abbrev pub referenced : Resource service → Error ⊎ ObjectMeta → Outcome (Resource service)
  referenced o (inl e) = err (wrapf "failed to set controller owner reference" e)
  referenced o (inr m) = ok (record o { metadata = m })

  -- The callback on the service: the console's deployment owns it.
  unfoldable pub own_by_deployment : Resource deployment → Resource service → M P (Resource service)
  own_by_deployment d o = lift (referenced o (P.set_controller_reference d.metadata o.metadata))

  unfoldable pub ensure_console_plugin : M P (Unit {0})
  unfolding this client_get get_deployment get_service get_console_plugin_cr
  ensure_console_plugin = do
    r ← this P
    (e, d) ← client_get P deployment (get_deployment r.namespace)
    unless_error (wrapf "failed to get the deployment") e
    x ← caught (
        P.create_or_update service (get_service r.config.console_port r.namespace)
          (own_by_deployment d))
    unless_exists "failed to create/update console service" x
    y ← caught (
        P.create_or_update console_plugin
          (get_console_plugin_cr r.config.console_port main_base_path r.namespace) (λ o. pure o))
    unless_exists "failed to get console plugin CR" y

  unfoldable pub reconcile_console_cluster : M P (Unit {0})
  unfolding this has_plugin add_plugin on_cluster
  reconcile_console_cluster = do
    r ← this P
    clusters ← wrapping "failed to reconcile console cluster" (on_cluster P (P.list console none))
    when (not (has_plugin clusters)) do
      o ←
          wrapping "failed to reconcile ConsoleCluster"
            (P.create_or_update console r.operator_console (λ o. pure (add_plugin o)))
      pure tt
