-- ===== src/Controller/Monitoring/Receivers.antt =====
-- `configReceiver`, and the loop of `reconcileAlertmanagerConfig` that collects the addresses.
pub mod Addresses
pub mod Template
use mcg_osd_deployer.Base.{
  ℕ, zero, suc, ◌+◌, String, ◌<>◌, Bool, true, false, Option, none, some, List, [], ◌∷◌, ◌==◌,
  if◌then◌else◌,
}
use mcg_osd_deployer.Base.Dict.{Dict, lookup}
use mcg_osd_deployer.Cluster.Meta.{or_empty}
use mcg_osd_deployer.Cluster.Monitoring.{
  AlertmanagerConfigBody, EmailConfig, PagerDutyConfig, Receiver,
}
use mcg_osd_deployer.Controller.Reconciler.{Config}
use mcg_osd_deployer.Templates.Text.{join}

abbrev notification_email_key_prefix : String
notification_email_key_prefix = "notification-email"

-- `fmt.Sprintf("%s-%v", notificationEmailKeyPrefix, i)`
unfoldable pub alerting_address_key : (ℕ → String) → ℕ → String
alerting_address_key sprint i = notification_email_key_prefix <> ("-" <> sprint i)

abbrev cons_some : String → Option (List String) → Option (List String)
cons_some a none = none
cons_some a (some rest) = some (a ∷ rest)

-- One round: a key that is missing ends the loop.
abbrev pub next_address : Option String → Option (List String) → Option (List String)
next_address none rest = some []
next_address (some a) rest = cons_some a rest

-- The loop from index `i`, with fuel; `none` means that the fuel ran out.
unfoldable pub addresses_from : (ℕ → String) → Dict String → ℕ → ℕ → Option (List String)
addresses_from key params zero i = none
addresses_from key params (suc fuel) i =
    let rest = addresses_from key params fuel (suc i) in next_address (lookup (key i) params) rest

-- The body of the `data` of a secret under a key, empty where there is none.
unfoldable pub entry : Dict String → String → String
unfolding lookup
entry entries key = or_empty (lookup key entries)

-- What `configReceiver` fills in.
pub record ReceiverInputs : Type 0 where
  pub dms_url : String
  pub addresses : List String
  pub smtp_html : String
  pub smtp_entries : Dict String

module _ (join_host_port : String → String → String) (c : Config) (x : ReceiverInputs) where
  -- `receiver.PagerDutyConfigs[0]`; `none` is an index out of range.
  unfoldable pub set_pager_duty : List PagerDutyConfig → Option (List PagerDutyConfig)
  set_pager_duty [] = none
  set_pager_duty (p ∷ rest) = elim p.details [
    | [] ↦ none
    | d ∷ ds ↦ some (
        record {
          service_key = record {
            secret_name = c.pagerduty_secret_name;
            secret_key = "PAGERDUTY_KEY";
          };
          details = ("SOP", c.sop_endpoint) ∷ ds;
        }
        ∷ rest)
  ]

  unfoldable pub set_webhook : List (Option String) → Option (List (Option String))
  set_webhook [] = none
  set_webhook (w ∷ rest) = some (some x.dms_url ∷ rest)

  unfoldable pub set_email : List EmailConfig → Option (List EmailConfig)
  unfolding entry join
  set_email [] = none
  set_email (e ∷ rest) = some (
      record e {
        smarthost = join_host_port (entry x.smtp_entries "host") (entry x.smtp_entries "port");
        auth_username = entry x.smtp_entries "username";
        auth_password = record { secret_name = c.smtp_secret_name; secret_key = "password" };
        from = c.alert_smtp_from;
        to = join x.addresses ", ";
        html = x.smtp_html;
      }
      ∷ rest)

  -- The `switch` on the receiver's name. Without an address the mail receiver stays as it is.
  unfoldable pub set_receiver : Receiver → Option Receiver
  unfolding set_pager_duty set_webhook set_email
  set_receiver r =
      if r.receiver_name == "pagerduty"
      then elim (set_pager_duty r.pager_duty_configs) [
        | none ↦ none
        | some ps ↦ some (record r { pager_duty_configs = ps })
      ]
      else if r.receiver_name == "DeadMansSnitch"
      then elim (set_webhook r.webhook_urls) [
        | none ↦ none
        | some ws ↦ some (record r { webhook_urls = ws })
      ]
      else if r.receiver_name == "SendGrid"
      then elim x.addresses [
        | [] ↦ some r
        | a ∷ more ↦ elim (set_email r.email_configs) [
          | none ↦ none
          | some es ↦ some (record r { email_configs = es })
        ]
      ]
      else some r

  abbrev both : Option Receiver → Option (List Receiver) → Option (List Receiver)
  both none rest = none
  both (some r) none = none
  both (some r) (some rest) = some (r ∷ rest)

  unfoldable pub set_receivers : List Receiver → Option (List Receiver)
  set_receivers [] = some []
  set_receivers (r ∷ rest) = both (set_receiver r) (set_receivers rest)

  unfoldable pub config_receiver : AlertmanagerConfigBody → Option AlertmanagerConfigBody
  config_receiver desired = elim (set_receivers desired.receivers) [
    | none ↦ none
    | some rs ↦ some (record desired { receivers = rs })
  ]
