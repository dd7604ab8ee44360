-- ===== src/Templates/Alerts.antt =====
-- templates/alertmanager.go, alertmanagerconfig.go and dmsprometheusrule.go.
use mcg_osd_deployer.Base.{String, false, none, some, List, [], ◌∷◌}
use mcg_osd_deployer.Base.Int.{pos}
use mcg_osd_deployer.Cluster.Monitoring.{
  AlertmanagerBody, AlertmanagerConfigBody, Matcher, Receiver, Route, RuleGroup, SecretKeySelector,
}
use mcg_osd_deployer.Templates.Text.{get_regex_matcher, required}

unfoldable pub alertmanager_template : AlertmanagerBody
unfolding required
alertmanager_template = record {
  alertmanager_replicas = some (pos 1);
  alertmanager_resources = required "alertmanager";
  topology_spread =
      record {
        max_skew = 1;
        spread_selector = some (("app", "alertmanager") ∷ []);
        when_unsatisfiable = "ScheduleAnyway";
        topology_key = "kubernetes.io/hostname";
      }
      ∷ [];
  config_selector = none;
}

abbrev pub pagerduty_alerts : List String
pagerduty_alerts = "CacheBucketErrorState" ∷ []

abbrev pub smtp_alerts : List String
smtp_alerts = "DataSourceErrorState" ∷ "BucketPolicyErrorState" ∷ []

abbrev alertname_is : String → String → Matcher
alertname_is value match_type = record {
  matcher_name = "alertname";
  matcher_value = value;
  match_type = match_type;
}

abbrev route_to : String → String → Matcher → Route
route_to receiver repeat_interval matcher = record {
  group_by = "alertname" ∷ [];
  group_wait = "30s";
  group_interval = "5m";
  repeat_interval = repeat_interval;
  matchers = matcher ∷ [];
  route_receiver = receiver;
}

abbrev no_secret : SecretKeySelector
no_secret = record { secret_name = ""; secret_key = "" }

abbrev bare_receiver : String → Receiver
bare_receiver name = record {
  receiver_name = name;
  pager_duty_configs = [];
  webhook_urls = [];
  email_configs = [];
}

unfoldable pub alertmanager_config_template : AlertmanagerConfigBody
unfolding get_regex_matcher
alertmanager_config_template = record {
  root_receiver = "null";
  routes =
      route_to "SendGrid" "12h" (alertname_is (get_regex_matcher smtp_alerts) "=~")
      ∷ route_to "pagerduty" "12h" (alertname_is (get_regex_matcher pagerduty_alerts) "=~")
      ∷ route_to "DeadMansSnitch" "5m" (alertname_is "DeadMansSnitch" "=")
      ∷ [];
  receivers =
      bare_receiver "null"
      ∷ record {
        receiver_name = "pagerduty";
        pager_duty_configs = record { service_key = no_secret; details = ("", "") ∷ [] } ∷ [];
        webhook_urls = [];
        email_configs = [];
      }
      ∷ record {
        receiver_name = "DeadMansSnitch";
        pager_duty_configs = [];
        webhook_urls = none ∷ [];
        email_configs = [];
      }
      ∷ record {
        receiver_name = "SendGrid";
        pager_duty_configs = [];
        webhook_urls = [];
        email_configs =
            record {
              send_resolved = some false;
              smarthost = "";
              from = "";
              to = "";
              auth_username = "";
              auth_password = no_secret;
              html = "";
              headers =
                  (
                    "subject",
                    "OpenShift Data Foundation Managed Service notification, Action required on your managed OpenShift cluster!",
                  )
                  ∷ [];
            }
            ∷ [];
      }
      ∷ [];
}

unfoldable pub dms_prometheus_rule_template : List RuleGroup
dms_prometheus_rule_template =
    record {
      group_name = "snitch-alert";
      rules =
          record {
            alert = "DeadMansSnitch";
            record_name = "";
            expr = "vector(1)";
            rule_labels = some (("alertname", "DeadMansSnitch") ∷ ("severity", "warning") ∷ []);
            rule_annotations =
                some (("severity_level", "warning") ∷ ("storage_type", "NooBaa") ∷ []);
          }
          ∷ [];
    }
    ∷ []
