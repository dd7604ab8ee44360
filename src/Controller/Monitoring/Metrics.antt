-- ===== src/Controller/Monitoring/Metrics.antt =====
-- `reconcileAlertRelabelConfigSecret`, `reconcilePrometheus` and `configureRHOBSRemoteWrite`.
pub mod RemoteWrite
pub mod Images
pub mod Prometheus
use mcg_osd_deployer.Base.{
  String, Option, none, some, List, [], ◌∷◌, ◌⊎◌, inl, inr, ◌==◌, if◌then◌else◌,
}
use mcg_osd_deployer.Base.Dict.{Dict, lookup, insert}
use mcg_osd_deployer.Exec.{
  Error, errorf, wrapf, Outcome, ok, err, pure, raise, panics, lift, wrapping, ◌>>=◌, ◌>>◌,
}
use mcg_osd_deployer.Utils.{add_label}
use mcg_osd_deployer.Cluster.Monitoring.{
  AlertmanagerEndpoints, Container, PrometheusBody, RemoteWriteSpec, StrategyDeploymentSpec,
}
use mcg_osd_deployer.Cluster.Objects.{Resource, secret, prometheus}
use mcg_osd_deployer.Cluster.Platform.{Platform}
use mcg_osd_deployer.Controller.Reconciler.{
  Config, deployer_csv_prefix, mon_label_key, mon_label_value, alert_relabel_config_secret_key,
  alert_relabel_config_secret_name, rhobs_config_id_secret_key, rhobs_config_secret_name,
}
use mcg_osd_deployer.Controller.Calls.{M, this, get, own, get_csv_by_prefix}
use mcg_osd_deployer.Templates.Metrics.{prometheus_template}

-- The loop that leaves the last deployment of the operator's name.
unfoldable pub deployer_deployment :
    Option StrategyDeploymentSpec → List StrategyDeploymentSpec → Option StrategyDeploymentSpec
deployer_deployment found [] = found
deployer_deployment found (d ∷ ds) =
    deployer_deployment
      (if d.deployment_name == "mcg-osd-deployer-controller-manager" then some d else found) ds

-- The loop that leaves the image of the last container of the proxy's name.
unfoldable pub kube_rbac_image : String → List Container → String
kube_rbac_image found [] = found
kube_rbac_image found (c ∷ cs) =
    kube_rbac_image (if c.container_name == "kube-rbac-proxy" then c.image else found) cs

unfoldable pub set_proxy_image : String → List Container → List Container
set_proxy_image proxy [] = []
set_proxy_image proxy (c ∷ cs) =
    (if c.container_name == "kube-rbac-proxy" then record c { image = proxy } else c)
    ∷ set_proxy_image proxy cs

-- The spec of the template with the proxy's image, the endpoints and the relabelings.
unfoldable pub prometheus_desired : List Container → List AlertmanagerEndpoints → PrometheusBody
unfolding set_proxy_image kube_rbac_image prometheus_template
prometheus_desired containers endpoints =
    let t = prometheus_template in
    record t {
      prometheus_containers =
          set_proxy_image (kube_rbac_image "" containers) t.prometheus_containers;
      alertmanagers = endpoints;
      additional_alert_relabel_configs = some (record {
        secret_name = alert_relabel_config_secret_name;
        secret_key = alert_relabel_config_secret_key;
      });
    }

-- `if _, found := data[key]; !found { return fmt.Errorf(...) }`
unfoldable pub require_key : String → Dict String → Outcome String
unfolding lookup
require_key key entries = elim (lookup key entries) [
  | none ↦ err (errorf "rhobs secret does not contain a value for key")
  | some v ↦ ok v
]

-- The remote write with the secret's references filled in.
unfoldable pub remote_write_to : Config → String → RemoteWriteSpec → RemoteWriteSpec
unfolding insert
remote_write_to c audience w =
    let oauth2 = w.oauth2 in
    record w {
      url = c.rhobs_endpoint;
      oauth2 = record {
        client_id = record {
          secret_name = c.rhobs_secret_name;
          secret_key = rhobs_config_id_secret_key;
        };
        client_secret = record {
          secret_name = c.rhobs_secret_name;
          secret_key = rhobs_config_secret_name;
        };
        token_url = c.rhsso_token_endpoint;
        endpoint_params = insert "audience" audience oauth2.endpoint_params;
      };
    }

module _ (P : Platform) where
  abbrev pub first_endpoint : String → List AlertmanagerEndpoints → M P (List AlertmanagerEndpoints)
  first_endpoint namespace [] = panics "index out of range"
  first_endpoint namespace (a ∷ rest) = pure (record a { endpoints_namespace = namespace } ∷ rest)

  abbrev pub first_remote_write :
      Config → String → List RemoteWriteSpec → M P (List RemoteWriteSpec)
  first_remote_write c audience [] = panics "index out of range"
  first_remote_write c audience (w ∷ rest) = pure (remote_write_to c audience w ∷ rest)

  -- The keys of a secret that is there are checked one by one.
  unfoldable pub remote_write_with : Config → Dict String → PrometheusBody → M P PrometheusBody
  unfolding require_key remote_write_to
  remote_write_with c entries spec = do
    id ← lift (require_key rhobs_config_id_secret_key entries)
    password ← lift (require_key rhobs_config_secret_name entries)
    audience ← lift (require_key "rhobs-audience" entries)
    writes ← first_remote_write c audience spec.remote_write
    pure (record spec { remote_write = writes })

  -- `if err != nil && !errors.IsNotFound(err) { return err }`
  abbrev pub unless_not_found : Option Error → M P (Unit {0})
  unless_not_found none = pure tt
  unless_not_found (some e) = if P.is_not_found e then pure tt else raise e

  unfoldable pub configure_rhobs_remote_write : PrometheusBody → M P PrometheusBody
  unfolding this get
  configure_rhobs_remote_write spec = do
    r ← this P
    (e, o) ← get P secret r.rhobs_remote_write_config_secret
    unless_not_found e
    if o.metadata.uid == ""
        then pure (record spec { remote_write = [] })
        else remote_write_with r.config o.body spec

  abbrev pub containers_of : Option StrategyDeploymentSpec → M P (List Container)
  containers_of none = panics "nil pointer dereference"
  containers_of (some d) = pure d.containers

  -- The callback of `reconcilePrometheus`.
  unfoldable pub prometheus_as : Resource prometheus → M P (Resource prometheus)
  unfolding this own add_label prometheus_desired
  prometheus_as o = do
    r ← this P
    o' ← own P o
    csv ←
        wrapping "unable to set image for kube-rbac-proxy container"
          (get_csv_by_prefix P deployer_csv_prefix)
    containers ← containers_of (deployer_deployment none csv.body)
    endpoints ← first_endpoint r.namespace prometheus_template.alertmanagers
    spec ← configure_rhobs_remote_write (prometheus_desired containers endpoints)
    pure (record { metadata = add_label o'.metadata mon_label_key mon_label_value; body = spec })

  unfoldable pub reconcile_prometheus : M P (Unit {0})
  unfolding this
  reconcile_prometheus = do
    r ← this P
    o ←
        wrapping "failed to create/update Prometheus"
          (P.create_or_update prometheus r.the_prometheus prometheus_as)
    pure tt

  abbrev pub relabel_encoded : Error ⊎ String → Outcome String
  relabel_encoded (inl e) = err (wrapf "unable to encode alert relabel conifg" e)
  relabel_encoded (inr text) = ok text

  -- The callback of `reconcileAlertRelabelConfigSecret`.
  unfoldable pub relabel_secret_as : Resource secret → M P (Resource secret)
  unfolding this own
  relabel_secret_as o = do
    r ← this P
    o' ← own P o
    config ← lift (relabel_encoded (P.marshal_relabel "namespace" r.namespace))
    pure (record o' { body = (alert_relabel_config_secret_key, config) ∷ [] })

  unfoldable pub reconcile_alert_relabel_config_secret : M P (Unit {0})
  unfolding this relabel_secret_as
  reconcile_alert_relabel_config_secret = do
    r ← this P
    o ←
        wrapping "unable to create/update AlertRelabelConfigSecret"
          (P.create_or_update secret r.alert_relabel_config_secret relabel_secret_as)
    pure tt
