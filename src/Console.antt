-- ===== src/Console.antt =====
-- console/console.go: the objects of the console plugin.
pub mod Ports
use mcg_osd_deployer.Base.{ℕ, String, ◌<>◌, true, some, [], ◌∷◌, inl}
use mcg_osd_deployer.Base.Int.{ℤ, int32, int32_ℤ}
use mcg_osd_deployer.Cluster.Meta.{named}
use mcg_osd_deployer.Cluster.Objects.{Resource, deployment, service, console_plugin}
use mcg_osd_deployer.Cluster.Zero.{fresh}
use mcg_osd_deployer.Templates.Metrics.{kube_rbac_proxy_port_number}

abbrev pub main_base_path : String
main_base_path = "/"

abbrev tls_service : String
tls_service = "prometheus"

unfoldable pub get_deployment : String → Resource deployment
unfolding fresh
get_deployment namespace = fresh deployment "mcg-ms-console" namespace

unfoldable pub get_service : ℤ → String → Resource service
unfolding named int32_ℤ int32
get_service port namespace =
    let m = named "mcg-ms-console-service" namespace in
    record {
      metadata = record m {
        annotations = some (
            ("service.alpha.openshift.io/serving-cert-secret-name", "mcg-ms-console-serving-cert")
            ∷ []);
        labels = some (("app", "mcg-ms-console") ∷ []);
      };
      body = record {
        ports =
            record {
              port_name = "console-port";
              protocol = "TCP";
              port = int32_ℤ port;
              target_port = inl (int32_ℤ port);
            }
            ∷ [];
        selector = some (("app", "mcg-ms-console") ∷ []);
        service_type = "ClusterIP";
      };
    }

unfoldable pub get_console_plugin_cr : ℤ → String → String → Resource console_plugin
unfolding named int32_ℤ int32
get_console_plugin_cr port base_path namespace = record {
  metadata = named "mcg-ms-console" "";
  body = record {
    display_name = "mcg-managed-service-console plugin";
    service_name = "mcg-ms-console-service";
    service_namespace = namespace;
    service_port = int32_ℤ port;
    base_path = base_path;
    proxy_alias = tls_service <> "-proxy";
    proxy_authorize = true;
    proxy_service_name = tls_service;
    proxy_service_namespace = namespace;
    proxy_service_port = int32 kube_rbac_proxy_port_number;
  };
}
