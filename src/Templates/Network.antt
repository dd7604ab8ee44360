-- ===== src/Templates/Network.antt =====
-- templates/ingressnetworkpolicy.go, prometheusproxynetworkpolicy.go and
-- prometheuskuberbacproxyconfig.go.
use mcg_osd_deployer.Base.{String, Bool, false, none, List, [], ◌∷◌}
use mcg_osd_deployer.Base.Dict.{Dict}
use mcg_osd_deployer.Cluster.Monitoring.{NetworkPolicyBody, pod_peer, namespace_peer}
use mcg_osd_deployer.Templates.Metrics.{kube_rbac_proxy_port_number}

unfoldable pub network_policy_template : NetworkPolicyBody
network_policy_template = record {
  ingress = record { peers = pod_peer none ∷ namespace_peer none ∷ []; ingress_ports = [] } ∷ [];
  policy_types = "Ingress" ∷ [];
  pod_selector = [];
}

unfoldable pub prometheus_proxy_network_policy_template : NetworkPolicyBody
prometheus_proxy_network_policy_template = record {
  ingress = record { peers = []; ingress_ports = (kube_rbac_proxy_port_number, "TCP") ∷ [] } ∷ [];
  policy_types = "Ingress" ∷ [];
  pod_selector =
      record {
        requirement_key = "prometheus";
        requirement_operator = "In";
        requirement_values = "managed-mcg-prometheus" ∷ [];
      }
      ∷ [];
}

-- The proxy's configuration, marshalled by `marshal`.
unfoldable pub kube_rbac_proxy_config : (List (String × Bool × String) → String) → Dict String
kube_rbac_proxy_config marshal =
    ("config-file.json", marshal (("/metrics", false, "get") ∷ ("/federate", false, "get") ∷ []))
    ∷ []
