-- ===== src/Controller/Access.antt =====
-- The access to the API server that the operator asks for: the markers above `Reconcile` in
-- controllers/managedmcg_controller.go, from which the roles of its service account are generated.
use mcg_osd_deployer.Base.{String, ◌<>◌, Bool, true, false, ◌&&◌, ◌||◌, List, [], ◌∷◌, ◌==◌}
use mcg_osd_deployer.Utils.{contains}
use mcg_osd_deployer.Cluster.Objects.{
  Kind, managed_mcg, noobaa, bucket_class, backing_store, namespace_store, object_bucket_claim,
  cluster_service_version, config_map, secret, service, deployment, stateful_set, prometheus,
  alertmanager, alertmanager_config, prometheus_rule, pod_monitor, service_monitor, network_policy,
  console_plugin, console, cluster_version,
}
use mcg_osd_deployer.Cluster.Platform.{
  Request, create_request, update_request, delete_request, status_request,
}

-- One marker: verbs on resources of an API group, in the operator's own namespace or in all of them.
pub record Marker : Type 0 where
  pub group : String
  pub everywhere : Bool
  pub resources : List String
  pub verbs : List String

abbrev in_system : String → List String → List String → Marker
in_system group resources verbs = record {
  group = group;
  everywhere = false;
  resources = resources;
  verbs = verbs;
}

abbrev anywhere : String → List String → List String → Marker
anywhere group resources verbs = record {
  group = group;
  everywhere = true;
  resources = resources;
  verbs = verbs;
}

-- The markers, in their order.
abbrev pub markers : List Marker
markers =
    in_system "" ("configmaps" ∷ []) ("create" ∷ "get" ∷ "list" ∷ "watch" ∷ "update" ∷ [])
    ∷ in_system "" ("secrets" ∷ []) ("get" ∷ "list" ∷ "watch" ∷ "create" ∷ "update" ∷ [])
    ∷ in_system "" ("services" ∷ "endpoints" ∷ [])
        ("get" ∷ "list" ∷ "watch" ∷ "create" ∷ "update" ∷ "patch" ∷ "delete" ∷ [])
    ∷ in_system "apps" ("deployments" ∷ [])
        ("get" ∷ "list" ∷ "watch" ∷ "create" ∷ "update" ∷ "patch" ∷ "delete" ∷ [])
    ∷ in_system "apps" ("deployments/finalizers" ∷ []) ("update" ∷ [])
    ∷ in_system "apps" ("statefulsets" ∷ []) ("get" ∷ "list" ∷ "watch" ∷ [])
    ∷ in_system "coordination.k8s.io" ("leases" ∷ [])
        ("create" ∷ "get" ∷ "list" ∷ "watch" ∷ "update" ∷ [])
    ∷ in_system "monitoring.coreos.com" ("podmonitors" ∷ [])
        ("get" ∷ "list" ∷ "watch" ∷ "update" ∷ "patch" ∷ [])
    ∷ in_system "monitoring.coreos.com" ("prometheusrules" ∷ [])
        ("get" ∷ "list" ∷ "watch" ∷ "create" ∷ "update" ∷ [])
    ∷ in_system "monitoring.coreos.com" ("servicemonitors" ∷ [])
        ("get" ∷ "list" ∷ "watch" ∷ "update" ∷ "patch" ∷ "create" ∷ [])
    ∷ in_system "monitoring.coreos.com"
        ("alertmanagers" ∷ "prometheuses" ∷ "alertmanagerconfigs" ∷ [])
        ("get" ∷ "list" ∷ "watch" ∷ "create" ∷ "update" ∷ [])
    ∷ in_system "networking.k8s.io" ("networkpolicies" ∷ [])
        ("create" ∷ "get" ∷ "list" ∷ "watch" ∷ "update" ∷ [])
    ∷ anywhere "config.openshift.io" ("clusterversions" ∷ []) ("get" ∷ "list" ∷ "watch" ∷ [])
    ∷ anywhere "console.openshift.io" ("consoleplugins" ∷ []) ("*" ∷ [])
    ∷ anywhere "mcg.openshift.io" ("managedmcgs/status" ∷ []) ("get" ∷ "update" ∷ "patch" ∷ [])
    ∷ anywhere "mcg.openshift.io" ("managedmcgs" ∷ "managedmcgs/finalizers" ∷ [])
        ("get" ∷ "list" ∷ "watch" ∷ "create" ∷ "update" ∷ "patch" ∷ "delete" ∷ [])
    ∷ in_system "noobaa.io" ("backingstores" ∷ []) ("get" ∷ "list" ∷ "watch" ∷ [])
    ∷ in_system "noobaa.io" ("backingstores" ∷ []) ("delete" ∷ [])
    ∷ in_system "noobaa.io" ("namespacestores" ∷ []) ("get" ∷ "list" ∷ "watch" ∷ "delete" ∷ [])
    ∷ in_system "noobaa.io" ("bucketclasses" ∷ [])
        ("get" ∷ "list" ∷ "watch" ∷ "create" ∷ "delete" ∷ [])
    ∷ in_system "noobaa.io" ("noobaas" ∷ [])
        ("get" ∷ "list" ∷ "watch" ∷ "create" ∷ "update" ∷ "delete" ∷ [])
    ∷ in_system "objectbucket.io" ("objectbucketclaims" ∷ [])
        ("get" ∷ "list" ∷ "watch" ∷ "delete" ∷ "update" ∷ [])
    ∷ anywhere "objectbucket.io" ("objectbucketclaims" ∷ [])
        ("get" ∷ "list" ∷ "watch" ∷ "create" ∷ "delete" ∷ [])
    ∷ in_system "objectbucket.io" ("objectbucketclaims/finalizers" ∷ []) ("update" ∷ [])
    ∷ in_system "operators.coreos.com" ("clusterserviceversions" ∷ [])
        ("get" ∷ "list" ∷ "watch" ∷ "update" ∷ "delete" ∷ [])
    ∷ anywhere "operator.openshift.io" ("consoles" ∷ [])
        ("get" ∷ "list" ∷ "watch" ∷ "create" ∷ "delete" ∷ "update" ∷ [])
    ∷ []

-- What a verb on a resource needs, as a marker grants it.
unfoldable pub is_granted_by : Marker → String → String → String → Bool
unfolding contains
is_granted_by marker group resource verb =
    marker.group == group
    && (contains marker.resources resource
        && (contains marker.verbs verb || contains marker.verbs "*"))

-- Some marker grants it, at least in the operator's namespace.
unfoldable pub is_granted : List Marker → String × String → String → Bool
unfolding is_granted_by
is_granted [] (group, resource) verb = false
is_granted (marker ∷ rest) (group, resource) verb =
    is_granted_by marker group resource verb || is_granted rest (group, resource) verb

-- Some marker grants it in every namespace.
unfoldable pub is_granted_everywhere : List Marker → String × String → String → Bool
unfolding is_granted_by
is_granted_everywhere [] (group, resource) verb = false
is_granted_everywhere (marker ∷ rest) (group, resource) verb =
    (marker.everywhere && is_granted_by marker group resource verb)
    || is_granted_everywhere rest (group, resource) verb

-- The group and the plural name by which the API server knows a kind.
abbrev pub resource_of : Kind → String × String
resource_of managed_mcg = ("mcg.openshift.io", "managedmcgs")
resource_of noobaa = ("noobaa.io", "noobaas")
resource_of bucket_class = ("noobaa.io", "bucketclasses")
resource_of backing_store = ("noobaa.io", "backingstores")
resource_of namespace_store = ("noobaa.io", "namespacestores")
resource_of object_bucket_claim = ("objectbucket.io", "objectbucketclaims")
resource_of cluster_service_version = ("operators.coreos.com", "clusterserviceversions")
resource_of config_map = ("", "configmaps")
resource_of secret = ("", "secrets")
resource_of service = ("", "services")
resource_of deployment = ("apps", "deployments")
resource_of stateful_set = ("apps", "statefulsets")
resource_of prometheus = ("monitoring.coreos.com", "prometheuses")
resource_of alertmanager = ("monitoring.coreos.com", "alertmanagers")
resource_of alertmanager_config = ("monitoring.coreos.com", "alertmanagerconfigs")
resource_of prometheus_rule = ("monitoring.coreos.com", "prometheusrules")
resource_of pod_monitor = ("monitoring.coreos.com", "podmonitors")
resource_of service_monitor = ("monitoring.coreos.com", "servicemonitors")
resource_of network_policy = ("networking.k8s.io", "networkpolicies")
resource_of console_plugin = ("console.openshift.io", "consoleplugins")
resource_of console = ("operator.openshift.io", "consoles")
resource_of cluster_version = ("config.openshift.io", "clusterversions")

-- The resource and the verb of a request.
abbrev pub access_of : Request → (String × String) × String
access_of (create_request k o) = (resource_of k, "create")
access_of (update_request k o) = (resource_of k, "update")
access_of (delete_request k o) = (resource_of k, "delete")
access_of (status_request k o) =
    let (group, resource) = resource_of k in ((group, resource <> "/status"), "update")
