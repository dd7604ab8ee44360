-- ===== src/Controller/Monitoring/Network.antt =====
-- The objects around Prometheus and the network policies, each of which a callback overwrites:
-- `reconcileKubeRBACConfigMap`, `reconcilePrometheusService`, `reconcilePrometheusProxyNetworkPolicy`
-- and, of controllers/managedmcg_controller.go, `reconcileIngressNetworkPolicy`.
use mcg_osd_deployer.Base.{String, some, [], ◌∷◌, inr}
use mcg_osd_deployer.Base.Int.{int32}
use mcg_osd_deployer.Exec.{pure, wrapping, ◌>>=◌}
use mcg_osd_deployer.Utils.{add_label, add_annotation}
use mcg_osd_deployer.Cluster.Objects.{Resource, config_map, service, network_policy}
use mcg_osd_deployer.Cluster.Platform.{Platform}
use mcg_osd_deployer.Controller.Reconciler.{mon_label_key, mon_label_value}
use mcg_osd_deployer.Controller.Calls.{M, this, own}
use mcg_osd_deployer.Templates.Metrics.{
  kube_rbac_proxy_port_number, prometheus_serving_cert_secret_name,
}
use mcg_osd_deployer.Templates.Network.{
  kube_rbac_proxy_config, network_policy_template, prometheus_proxy_network_policy_template,
}

-- What the callback of `reconcilePrometheusService` writes.
unfoldable pub prometheus_service_as : Resource service → Resource service
unfolding add_label add_annotation int32
prometheus_service_as o =
    let key₁ : String = "service.beta.openshift.io/serving-cert-secret-name" in
    let key₂ : String = "service.alpha.openshift.io/serving-cert-secret-name" in
    let b = o.body in
    record {
      metadata =
          add_label
            (add_annotation (add_annotation o.metadata key₁ prometheus_serving_cert_secret_name)
              key₂ prometheus_serving_cert_secret_name)
            mon_label_key mon_label_value;
      body = record b {
        ports =
            record {
              port_name = "https";
              protocol = "TCP";
              port = int32 kube_rbac_proxy_port_number;
              target_port = inr "https";
            }
            ∷ [];
        selector = some (("app.kubernetes.io/name", o.metadata.name) ∷ []);
      };
    }

module _ (P : Platform) where
  -- The callbacks of the functions below.
  unfoldable pub kube_rbac_config_map_as : Resource config_map → M P (Resource config_map)
  unfolding own kube_rbac_proxy_config
  kube_rbac_config_map_as o = do
    o' ← own P o
    pure (record o' { body = kube_rbac_proxy_config P.marshal_static })

  unfoldable pub owned_prometheus_service : Resource service → M P (Resource service)
  unfolding own prometheus_service_as
  owned_prometheus_service o = do o' ← own P o; pure (prometheus_service_as o')

  unfoldable pub proxy_network_policy_as : Resource network_policy → M P (Resource network_policy)
  unfolding own prometheus_proxy_network_policy_template
  proxy_network_policy_as o = do
    o' ← own P o
    pure (record o' { body = prometheus_proxy_network_policy_template })

  unfoldable pub ingress_network_policy_as : Resource network_policy → M P (Resource network_policy)
  unfolding own network_policy_template
  ingress_network_policy_as o = do o' ← own P o; pure (record o' { body = network_policy_template })

  unfoldable pub reconcile_kube_rbac_config_map : M P (Unit {0})
  unfolding this kube_rbac_config_map_as
  reconcile_kube_rbac_config_map = do
    r ← this P
    o ←
        wrapping "unable to create kubeRBACConfig config map"
          (P.create_or_update config_map r.kube_rbac_config_map kube_rbac_config_map_as)
    pure tt

  unfoldable pub reconcile_prometheus_service : M P (Unit {0})
  unfolding this owned_prometheus_service
  reconcile_prometheus_service = do
    r ← this P
    o ←
        wrapping "unable to create/update PrometheusService"
          (P.create_or_update service r.prometheus_service owned_prometheus_service)
    pure tt

  unfoldable pub reconcile_prometheus_proxy_network_policy : M P (Unit {0})
  unfolding this proxy_network_policy_as
  reconcile_prometheus_proxy_network_policy = do
    r ← this P
    o ← wrapping "failed to update prometheus proxy NetworkPolicy" (
        P.create_or_update network_policy r.prometheus_proxy_network_policy proxy_network_policy_as)
    pure tt

  unfoldable pub reconcile_ingress_network_policy : M P (Unit {0})
  unfolding this ingress_network_policy_as
  reconcile_ingress_network_policy = do
    r ← this P
    o ←
        wrapping "failed to update ingress network policy"
          (P.create_or_update network_policy r.ingress_network_policy ingress_network_policy_as)
    pure tt
