-- ===== src/Controller/Monitoring/Receivers/Template.antt =====
-- The receivers of the template can all be filled in.
use mcg_osd_deployer.Base.{◌≡◌, refl, String, some, List, [], ◌∷◌, map}
use mcg_osd_deployer.Cluster.Monitoring.{AlertmanagerConfigBody}
use mcg_osd_deployer.Controller.Reconciler.{Config}
use mcg_osd_deployer.Controller.Monitoring.Receivers.{
  ReceiverInputs, config_receiver, set_receivers, set_receiver, set_pager_duty, set_webhook,
  set_email,
}
use mcg_osd_deployer.Templates.Alerts.{alertmanager_config_template}

abbrev pub names : AlertmanagerConfigBody → List String
names body = map (λ r. r.receiver_name) body.receivers

module _ (join_host_port : String → String → String) (c : Config) where
  -- The template can be filled in, with the same routes and names.
  abbrev FillsTemplate : ReceiverInputs → Type 0
  FillsTemplate x =
      (out : AlertmanagerConfigBody) × (config_receiver join_host_port c x
          alertmanager_config_template
        ≡ some out)
      × (names out ≡ names alertmanager_config_template)
      × (out.root_receiver ≡ alertmanager_config_template.root_receiver)
      × (out.routes ≡ alertmanager_config_template.routes)

  fills_with : (x : ReceiverInputs) (to : List String) → FillsTemplate (record x { addresses = to })
  unfolding config_receiver set_receivers set_receiver set_pager_duty set_webhook set_email
      alertmanager_config_template
  fills_with x [] = (_, refl, refl, refl, refl)
  fills_with x (a ∷ rest) = (_, refl, refl, refl, refl)

-- Filling in the receivers of the template never reads past the end of a list, whatever the
-- configuration, the addresses and the secrets are. It keeps the routes, and the receivers' names in
-- their order.
pub config_receiver-template :
    (join_host_port : String → String → String) (c : Config) (x : ReceiverInputs)
    → (out : AlertmanagerConfigBody) × (config_receiver join_host_port c x
          alertmanager_config_template
        ≡ some out)
      × (names out ≡ names alertmanager_config_template)
      × (out.root_receiver ≡ alertmanager_config_template.root_receiver)
      × (out.routes ≡ alertmanager_config_template.routes)
config_receiver-template join_host_port c x = fills_with join_host_port c x x.addresses
