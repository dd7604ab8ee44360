-- ===== src/Controller/Monitoring/Metrics/Prometheus.antt =====
-- The Prometheus resource that the callback of `reconcilePrometheus` makes, where it returns.
use mcg_osd_deployer.Base.{
  ◌≡◌, String, true, none, some, List, [], ◌∷◌, All, starts_with, ◌⊎◌, false,
}
use mcg_osd_deployer.Exec.{Outcome, ok}
use mcg_osd_deployer.Cluster.Meta.{get_key}
use mcg_osd_deployer.Cluster.Monitoring.{AlertmanagerEndpoints, StrategyDeploymentSpec}
use mcg_osd_deployer.Cluster.Objects.{Resource, secret, prometheus, cluster_service_version}
use mcg_osd_deployer.Cluster.Platform.{Platform}
use mcg_osd_deployer.Controller.Reconciler.{
  Reconciler, deployer_csv_prefix, mon_label_key, mon_label_value, alert_relabel_config_secret_key,
  alert_relabel_config_secret_name,
}
use mcg_osd_deployer.Controller.Monitoring.Metrics.{
  deployer_deployment, kube_rbac_image, prometheus_desired,
}
use mcg_osd_deployer.Controller.Monitoring.Metrics.RemoteWrite.{IsConfigured}
use mcg_osd_deployer.Controller.Monitoring.Metrics.Images.{HasImage}

-- The template's endpoint of the Alertmanager, in a namespace.
abbrev pub in_namespace_of : String → List AlertmanagerEndpoints
in_namespace_of namespace =
    record {
      endpoints_namespace = namespace;
      endpoints_name = "alertmanager-operated";
      endpoints_port = "web";
    }
    ∷ []

-- The CSV is in the list, its name has the prefix, and no name of one before it has.
abbrev pub FirstWith :
    String → List (Resource cluster_service_version) → Resource cluster_service_version → Type 0
FirstWith prefix [] csv = ⊥
FirstWith prefix (item ∷ rest) csv =
    ((starts_with item.metadata.name prefix ≡ true) × (item ≡ csv))
    ⊎ ((starts_with item.metadata.name prefix ≡ false) × FirstWith prefix rest csv)

-- The CSV is the first with the operator's prefix of those that were listed, the container's image
-- comes from a deployment of the operator's name of that CSV, the alerts go to the Alertmanager
-- of the namespace, with the relabelings of the operator's secret, the label is set by which the
-- operator's monitoring is selected, and the remote write is either taken out or goes to the
-- configured endpoint with what the secret holds.
pub record Outfitted (r : Reconciler) (listed : Outcome (List (Resource cluster_service_version)))
    (rhobs : Resource secret) (o : Resource prometheus) : Type 0 where
  pub csvs : List (Resource cluster_service_version)
  pub is_listed : listed ≡ ok csvs
  pub csv : Resource cluster_service_version
  pub is_first : FirstWith deployer_csv_prefix csvs csv
  pub deployed : StrategyDeploymentSpec
  pub is_last : deployer_deployment none csv.body ≡ some deployed
  pub is_named : deployed.deployment_name ≡ "mcg-osd-deployer-controller-manager"
  pub has_image :
      All (HasImage (kube_rbac_image "" deployed.containers)) o.body.prometheus_containers
  pub in_namespace : All (λ a. a.endpoints_namespace ≡ r.namespace) o.body.alertmanagers
  pub relabels :
      o.body.additional_alert_relabel_configs
      ≡ some (record {
        secret_name = alert_relabel_config_secret_name;
        secret_key = alert_relabel_config_secret_key;
      })
  pub label : get_key mon_label_key o.metadata.labels ≡ some mon_label_value
  pub remote :
      IsConfigured r.config rhobs
        (prometheus_desired deployed.containers (in_namespace_of r.namespace))
        o.body
