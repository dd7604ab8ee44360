-- ===== src/Templates/Metrics.antt =====
-- templates/prometheus.go.
use mcg_osd_deployer.Base.{ℕ, String, true, Option, none, some, List, [], ◌∷◌}
use mcg_osd_deployer.Base.Dict.{Dict}
use mcg_osd_deployer.Cluster.Monitoring.{
  Container, PrometheusBody, SecretKeySelector, secret_volume, config_map_volume,
}
use mcg_osd_deployer.Templates.Text.{get_relabel_regex, required}

abbrev pub kube_rbac_proxy_port_number : ℕ
kube_rbac_proxy_port_number = 9339

abbrev pub prometheus_serving_cert_secret_name : String
prometheus_serving_cert_secret_name = "prometheus-serving-cert-secret"

abbrev pub kube_rbac_proxy_config_map_name : String
kube_rbac_proxy_config_map_name = "prometheus-kube-rbac-proxy-config"

abbrev resource_selector : Option (Dict String)
resource_selector = some (("app", "managed-mcg") ∷ [])

abbrev metrics : List String
metrics =
    "namespace:noobaa_unhealthy_bucket_claims:max" ∷ "namespace:noobaa_buckets_claims:max"
    ∷ "namespace:noobaa_unhealthy_namespace_resources:max"
    ∷ "namespace:noobaa_namespace_resources:max"
    ∷ "namespace:noobaa_unhealthy_namespace_buckets:max" ∷ "namespace:noobaa_namespace_buckets:max"
    ∷ "namespace:noobaa_accounts:max" ∷ "namespace:noobaa_usage:max"
    ∷ "namespace:noobaa_system_health_status:max" ∷ []

abbrev alerts : List String
alerts = "BucketPolicyErrorState" ∷ "CacheBucketErrorState" ∷ "DataSourceErrorState" ∷ []

abbrev no_secret : SecretKeySelector
no_secret = record { secret_name = ""; secret_key = "" }

unfoldable pub kube_rbac_proxy_container : Container
unfolding required
kube_rbac_proxy_container = record {
  container_name = "kube-rbac-proxy";
  image = "";
  args =
      "--secure-listen-address=0.0.0.0:9339" ∷ "--upstream=http://127.0.0.1:9090/"
      ∷ "--logtostderr=true" ∷ "--v=10" ∷ "--tls-cert-file=/etc/tls-secret/tls.crt"
      ∷ "--tls-private-key-file=/etc/tls-secret/tls.key"
      ∷ "--client-ca-file=/var/run/secrets/kubernetes.io/serviceaccount/service-ca.crt"
      ∷ "--config-file=/etc/kube-rbac-config/config-file.json" ∷ [];
  container_ports = ("https", kube_rbac_proxy_port_number) ∷ [];
  volume_mounts =
      record { volume_name = "serving-cert"; mount_path = "/etc/tls-secret" }
      ∷ record { volume_name = "kube-rbac-config"; mount_path = "/etc/kube-rbac-config" }
      ∷ [];
  resources = required "kube-rbac-proxy";
}

unfoldable pub prometheus_template : PrometheusBody
unfolding required get_relabel_regex kube_rbac_proxy_container
prometheus_template = record {
  prometheus_replicas = none;
  service_monitor_selector = resource_selector;
  pod_monitor_selector = resource_selector;
  rule_selector = resource_selector;
  volumes =
      ("serving-cert", secret_volume prometheus_serving_cert_secret_name)
      ∷ ("kube-rbac-config", config_map_volume kube_rbac_proxy_config_map_name)
      ∷ [];
  prometheus_resources = required "prometheus";
  service_account_name = "prometheus-k8s";
  listen_local = true;
  prometheus_containers = kube_rbac_proxy_container ∷ [];
  remote_write =
      record {
        url = "";
        oauth2 = record {
          client_id = no_secret;
          client_secret = no_secret;
          token_url = "";
          endpoint_params = [];
        };
        write_relabel_configs =
            record {
              source_labels = "__name__" ∷ "alertname" ∷ [];
              regex = get_relabel_regex alerts metrics;
              action = "keep";
            }
            ∷ [];
      }
      ∷ [];
  alertmanagers =
      record {
        endpoints_namespace = "";
        endpoints_name = "alertmanager-operated";
        endpoints_port = "web";
      }
      ∷ [];
  additional_alert_relabel_configs = none;
}
