-- ===== src/Controller/Monitoring/Alerts.antt =====
-- `reconcileAlertmanager`, `reconcileAlertmanagerConfig` and `checkPrerequisites`.
use mcg_osd_deployer.Base.{suc, String, Option, none, some, [], ◌∷◌, ◌⊎◌, inl, inr, ◌==◌, length}
use mcg_osd_deployer.Base.Dict.{Dict}
use mcg_osd_deployer.Exec.{
  Error, errorf, wrapf, Outcome, ok, err, pure, raise, lift, when, unless_error, wrapping, ◌>>=◌,
  ◌>>◌, for_each,
}
use mcg_osd_deployer.Utils.{add_label}
use mcg_osd_deployer.Cluster.Objects.{Resource, secret, alertmanager, alertmanager_config}
use mcg_osd_deployer.Cluster.Platform.{Platform}
use mcg_osd_deployer.Controller.Reconciler.{mon_label_key, mon_label_value}
use mcg_osd_deployer.Controller.Calls.{M, or_panics, this, modify, get, own}
use mcg_osd_deployer.Controller.Monitoring.Receivers.{
  alerting_address_key, addresses_from, entry, config_receiver,
}
use mcg_osd_deployer.Templates.Alerts.{alertmanager_template, alertmanager_config_template}

module _ (P : Platform) where
  -- The callback of `reconcileAlertmanager`.
  unfoldable pub alertmanager_as : Resource alertmanager → M P (Resource alertmanager)
  unfolding own add_label alertmanager_template
  alertmanager_as o = do
    o' ← own P o
    pure (record {
      metadata = add_label o'.metadata mon_label_key mon_label_value;
      body =
          let t = alertmanager_template in
          record t { config_selector = some ((mon_label_key, mon_label_value) ∷ []) };
    })

  unfoldable pub reconcile_alertmanager : M P (Unit {0})
  unfolding this alertmanager_as
  reconcile_alertmanager = do
    r ← this P
    o ←
        wrapping "unable to update alertmanager"
          (P.create_or_update alertmanager r.the_alertmanager alertmanager_as)
    pure tt

  -- `if secret.UID == "" && err != nil { return fmt.Errorf(...) }`
  unfoldable pub unless_fetched : String → Resource secret → Option Error → M P (Unit {0})
  unless_fetched why o none = pure tt
  unless_fetched why o (some e) = when (o.metadata.uid == "") (raise (wrapf why e))

  unfoldable pub require_entry : String → Dict String → String → M P (Unit {0})
  unfolding entry
  require_entry why entries key = when (entry entries key == "") (raise (errorf why))

  unfoldable pub check_prerequisites :
      Resource alertmanager_config → M P (Resource alertmanager_config)
  unfolding this modify get own require_entry
  check_prerequisites o = do
    o' ← wrapping "failed to own AlertmanagerConfig secret" (own P o)
    r ← this P
    (e₁, pagerduty) ← get P secret r.pagerduty_secret
    modify P (λ r. record r { pagerduty_secret = pagerduty })
    unless_error (wrapf "unable to get pagerduty secret") e₁
    require_entry "pagerduty secret does not contain a PAGERDUTY_KEY entry" pagerduty.body
        "PAGERDUTY_KEY"
    (e₂, snitch) ← get P secret r.dead_mans_snitch_secret
    modify P (λ r. record r { dead_mans_snitch_secret = snitch })
    unless_fetched "unable to get DeadMansSnitch secret" snitch e₂
    pure o'

  abbrev pub file_text : Error ⊎ String → Outcome String
  file_text (inl e) = err (wrapf "unable to read customernotification.html file" e)
  file_text (inr text) = ok text

  -- The callback of `reconcileAlertmanagerConfig`. The loop over the addresses has fuel for one
  -- round more than there are parameters.
  unfoldable pub alertmanager_config_as :
      Resource alertmanager_config → M P (Resource alertmanager_config)
  unfolding this modify get add_label alertmanager_config_template alerting_address_key entry
  alertmanager_config_as o = do
    o' ← check_prerequisites o
    r ← this P
    let dms_url = entry r.dead_mans_snitch_secret.body "SNITCH_URL"
    when (dms_url == "")
        (raise (errorf "DeadMansSnitch secret does not contain a SNITCH_URL entry"))
    addresses ← or_panics P (
        addresses_from (alerting_address_key P.sprint) r.addon_params (suc (length r.addon_params))
          0)
    (e, smtp) ← get P secret r.smtp_secret
    modify P (λ r. record r { smtp_secret = smtp })
    unless_fetched "unable to get SMTP secret" smtp e
    for_each (require_entry "SMTP secret does not contain the entry" smtp.body)
        ("host" ∷ "port" ∷ "username" ∷ "password" ∷ [])
    html ← lift (file_text (P.read_file r.config.customer_notification_html_path))
    spec ← or_panics P (
        config_receiver P.join_host_port r.config
          (record {
            dms_url = dms_url;
            addresses = addresses;
            smtp_html = html;
            smtp_entries = smtp.body;
          })
          alertmanager_config_template)
    pure (record { metadata = add_label o'.metadata mon_label_key mon_label_value; body = spec })

  unfoldable pub reconcile_alertmanager_config : M P (Unit {0})
  unfolding this
  reconcile_alertmanager_config = do
    r ← this P
    o ←
        wrapping "unable to update alertmanager config"
          (P.create_or_update alertmanager_config r.the_alertmanager_config alertmanager_config_as)
    pure tt
