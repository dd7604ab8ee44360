-- ===== src/Cluster/Objects.antt =====
-- The kinds of objects, and what an object of each kind holds beside its metadata. Of a kind that
-- belongs to another project only the fields that the operator touches are kept.
use mcg_osd_deployer.Base.{ℕ, String, Bool, Option, List}
use mcg_osd_deployer.Base.Int.{ℤ}
use mcg_osd_deployer.Base.Dict.{Dict}
use mcg_osd_deployer.Cluster.Meta.{StringMap, ObjectMeta}
use mcg_osd_deployer.Cluster.Api.{ManagedMcgBody}
use mcg_osd_deployer.Cluster.Monitoring.{
  ResourceRequirements, StrategyDeploymentSpec, ServiceBody, PrometheusBody, AlertmanagerBody,
  RuleGroup, AlertmanagerConfigBody, NetworkPolicyBody,
}

pub data Kind : Type 0 where
  managed_mcg noobaa bucket_class backing_store namespace_store object_bucket_claim : Kind
  cluster_service_version config_map secret service deployment stateful_set : Kind
  prometheus alertmanager alertmanager_config prometheus_rule pod_monitor service_monitor : Kind
  network_policy console_plugin console cluster_version : Kind

pub record EndpointsSpec : Type 0 where
  pub min_count : ℕ
  pub max_count : ℕ
  pub additional_virtual_hosts : List String
  pub endpoint_resources : Option ResourceRequirements

pub record PvPoolSpec : Type 0 where
  pub storage_class : String
  pub num_volumes : ℕ
  pub volume_resources : ResourceRequirements

pub record NooBaaSpec : Type 0 where
  pub default_pv_pool : Option PvPoolSpec
  pub endpoints : Option EndpointsSpec
  pub allow_noobaa_deletion : Bool
  pub confirmation : String
  pub core_resources : Option ResourceRequirements
  pub db_resources : Option ResourceRequirements
  pub db_volume_resources : Option ResourceRequirements
  pub noobaa_image : Option String
  pub db_image : Option String
  pub db_type : String

pub record NooBaaBody : Type 0 where
  pub spec : NooBaaSpec
  pub phase : String

pub record BucketClassBody : Type 0 where
  pub class_phase : String

pub record ClaimBody : Type 0 where
  pub bucket_name : String
  pub storage_class_name : String
  pub generate_bucket_name : String
  pub additional_config : StringMap

pub record ConsolePluginBody : Type 0 where
  pub display_name : String
  pub service_name : String
  pub service_namespace : String
  pub service_port : ℤ
  pub base_path : String
  pub proxy_alias : String
  pub proxy_authorize : Bool
  pub proxy_service_name : String
  pub proxy_service_namespace : String
  pub proxy_service_port : ℤ

abbrev pub Body : Kind → Type 0
Body managed_mcg = ManagedMcgBody
Body noobaa = NooBaaBody
Body bucket_class = BucketClassBody
Body backing_store = Unit
Body namespace_store = Unit
Body object_bucket_claim = ClaimBody
Body cluster_service_version = List StrategyDeploymentSpec
Body config_map = Dict String
Body secret = Dict String
Body service = ServiceBody
Body deployment = ℤ
Body stateful_set = ℤ
Body prometheus = PrometheusBody
Body alertmanager = AlertmanagerBody
Body alertmanager_config = AlertmanagerConfigBody
Body prometheus_rule = List RuleGroup
Body pod_monitor = Unit
Body service_monitor = Unit
Body network_policy = NetworkPolicyBody
Body console_plugin = ConsolePluginBody
Body console = List String
Body cluster_version = String

-- An object. The body of a deployment or stateful set is its count of ready replicas, that of a
-- console its plugins, that of a cluster version its cluster id.
pub record Resource (k : Kind) : Type 0 where
  pub metadata : ObjectMeta
  pub body : Body k
