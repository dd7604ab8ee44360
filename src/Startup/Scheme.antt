-- ===== src/Startup/Scheme.antt =====
-- `init` of main.go and api/v1alpha1/groupversion_info.go: which types the client can encode.
use mcg_osd_deployer.Base.{◌≡◌, String, Bool, true, false, ◌||◌, ◌==◌, List, [], ◌∷◌, arith}
use mcg_osd_deployer.Cluster.Objects.{
  Kind, managed_mcg, noobaa, bucket_class, backing_store, namespace_store, object_bucket_claim,
  cluster_service_version, config_map, secret, service, deployment, stateful_set, prometheus,
  alertmanager, alertmanager_config, prometheus_rule, pod_monitor, service_monitor, network_policy,
  console_plugin, console, cluster_version,
}

abbrev pub group_version : String
group_version = "mcg.openshift.io/v1alpha1"

-- The packages with an `AddToScheme`, by the names under which main.go imports them.
pub data Package : Type 0 where
  clientgoscheme mcgv1alpha1 noobaa_apis opv1a1 operatorv1 promv1 promv1a1 : Package
  noobaav1alpha1 obv1 openshiftv1 consolev1 consolev1alpha1 : Package

-- The calls of `init`, in their order.
abbrev pub added : List Package
added =
    clientgoscheme ∷ mcgv1alpha1 ∷ noobaa_apis ∷ opv1a1 ∷ operatorv1 ∷ promv1 ∷ promv1a1
    ∷ noobaav1alpha1 ∷ obv1 ∷ openshiftv1 ∷ consolev1 ∷ consolev1alpha1 ∷ []

-- The group and version of the Go type that the operator has for a kind.
abbrev pub version_of : Kind → String
version_of managed_mcg = group_version
version_of noobaa = "noobaa.io/v1alpha1"
version_of bucket_class = "noobaa.io/v1alpha1"
version_of backing_store = "noobaa.io/v1alpha1"
version_of namespace_store = "noobaa.io/v1alpha1"
version_of object_bucket_claim = "objectbucket.io/v1alpha1"
version_of cluster_service_version = "operators.coreos.com/v1alpha1"
version_of config_map = "v1"
version_of secret = "v1"
version_of service = "v1"
version_of deployment = "apps/v1"
version_of stateful_set = "apps/v1"
version_of prometheus = "monitoring.coreos.com/v1"
version_of alertmanager = "monitoring.coreos.com/v1"
version_of alertmanager_config = "monitoring.coreos.com/v1alpha1"
version_of prometheus_rule = "monitoring.coreos.com/v1"
version_of pod_monitor = "monitoring.coreos.com/v1"
version_of service_monitor = "monitoring.coreos.com/v1"
version_of network_policy = "networking.k8s.io/v1"
version_of console_plugin = "console.openshift.io/v1alpha1"
version_of console = "operator.openshift.io/v1"
version_of cluster_version = "config.openshift.io/v1"

-- `adds` says which groups and versions a package of another project adds.
module _ (adds : Package → String → Bool) where
  abbrev pub adds_to_scheme : Package → String → Bool
  adds_to_scheme mcgv1alpha1 version = group_version == version
  adds_to_scheme p version = adds p version

  unfoldable pub in_scheme : List Package → String → Bool
  in_scheme [] version = false
  in_scheme (p ∷ rest) version = adds_to_scheme p version || in_scheme rest version

-- What the packages document: each adds its own group and version, the one of Kubernetes all built-in
-- ones, and the one of OpenShift's operators that of its configuration too.
pub record AddsOwn (adds : Package → String → Bool) : Type 0 where
  pub core : adds clientgoscheme "v1" ≡ true
  pub apps : adds clientgoscheme "apps/v1" ≡ true
  pub networking : adds clientgoscheme "networking.k8s.io/v1" ≡ true
  pub noobaa_own : adds noobaav1alpha1 "noobaa.io/v1alpha1" ≡ true
  pub claims : adds obv1 "objectbucket.io/v1alpha1" ≡ true
  pub operators : adds opv1a1 "operators.coreos.com/v1alpha1" ≡ true
  pub monitoring : adds promv1 "monitoring.coreos.com/v1" ≡ true
  pub monitoring_alpha : adds promv1a1 "monitoring.coreos.com/v1alpha1" ≡ true
  pub console_alpha : adds consolev1alpha1 "console.openshift.io/v1alpha1" ≡ true
  pub operator_own : adds operatorv1 "operator.openshift.io/v1" ≡ true
  pub configuration : adds operatorv1 "config.openshift.io/v1" ≡ true

-- Of every kind of object that the operator reads or writes, the group and version is added to the
-- scheme of the manager's client at the start, where the packages add what they document.
pub version_of-in_scheme :
    (adds : Package → String → Bool)
    → AddsOwn adds
    → (k : Kind) → in_scheme adds added (version_of k) ≡ true
unfolding in_scheme
version_of-in_scheme adds h managed_mcg = ground arith
version_of-in_scheme adds h noobaa = ground (arith, h.noobaa_own)
version_of-in_scheme adds h bucket_class = ground (arith, h.noobaa_own)
version_of-in_scheme adds h backing_store = ground (arith, h.noobaa_own)
version_of-in_scheme adds h namespace_store = ground (arith, h.noobaa_own)
version_of-in_scheme adds h object_bucket_claim = ground (arith, h.claims)
version_of-in_scheme adds h cluster_service_version = ground (arith, h.operators)
version_of-in_scheme adds h config_map = ground (arith, h.core)
version_of-in_scheme adds h secret = ground (arith, h.core)
version_of-in_scheme adds h service = ground (arith, h.core)
version_of-in_scheme adds h deployment = ground (arith, h.apps)
version_of-in_scheme adds h stateful_set = ground (arith, h.apps)
version_of-in_scheme adds h prometheus = ground (arith, h.monitoring)
version_of-in_scheme adds h alertmanager = ground (arith, h.monitoring)
version_of-in_scheme adds h alertmanager_config = ground (arith, h.monitoring_alpha)
version_of-in_scheme adds h prometheus_rule = ground (arith, h.monitoring)
version_of-in_scheme adds h pod_monitor = ground (arith, h.monitoring)
version_of-in_scheme adds h service_monitor = ground (arith, h.monitoring)
version_of-in_scheme adds h network_policy = ground (arith, h.networking)
version_of-in_scheme adds h console_plugin = ground (arith, h.console_alpha)
version_of-in_scheme adds h console = ground (arith, h.operator_own)
version_of-in_scheme adds h cluster_version = ground (arith, h.configuration)
