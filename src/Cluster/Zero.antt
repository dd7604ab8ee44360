-- ===== src/Cluster/Zero.antt =====
-- Go's zero values of the objects' bodies, and fresh objects.
use mcg_osd_deployer.Base.{String, false, none, []}
use mcg_osd_deployer.Base.Int.{pos}
use mcg_osd_deployer.Cluster.Meta.{named}
use mcg_osd_deployer.Cluster.Api.{strategy_other, other}
use mcg_osd_deployer.Cluster.Objects.{
  Kind, managed_mcg, noobaa, bucket_class, backing_store, namespace_store, object_bucket_claim,
  cluster_service_version, config_map, secret, service, deployment, stateful_set, prometheus,
  alertmanager, alertmanager_config, prometheus_rule, pod_monitor, service_monitor, network_policy,
  console_plugin, console, cluster_version, NooBaaSpec, Body, Resource,
}

abbrev zero_noobaa_spec : NooBaaSpec
zero_noobaa_spec = record {
  default_pv_pool = none;
  endpoints = none;
  allow_noobaa_deletion = false;
  confirmation = "";
  core_resources = none;
  db_resources = none;
  db_volume_resources = none;
  noobaa_image = none;
  db_image = none;
  db_type = "";
}

unfoldable pub zero_body : (k : Kind) → Body k
zero_body managed_mcg = record {
  spec_strategy = strategy_other "";
  status = record {
    reconcile_strategy = strategy_other "";
    components = record {
      noobaa = other "";
      prometheus = other "";
      alertmanager = other "";
      console = other "";
    };
  };
}
zero_body noobaa = record { spec = zero_noobaa_spec; phase = "" }
zero_body bucket_class = record { class_phase = "" }
zero_body backing_store = tt
zero_body namespace_store = tt
zero_body object_bucket_claim = record {
  bucket_name = "";
  storage_class_name = "";
  generate_bucket_name = "";
  additional_config = none;
}
zero_body cluster_service_version = []
zero_body config_map = []
zero_body secret = []
zero_body service = record { ports = []; selector = none; service_type = "" }
zero_body deployment = pos 0
zero_body stateful_set = pos 0
zero_body prometheus = record {
  prometheus_replicas = none;
  service_monitor_selector = none;
  pod_monitor_selector = none;
  rule_selector = none;
  volumes = [];
  prometheus_resources = none;
  service_account_name = "";
  listen_local = false;
  prometheus_containers = [];
  remote_write = [];
  alertmanagers = [];
  additional_alert_relabel_configs = none;
}
zero_body alertmanager = record {
  alertmanager_replicas = none;
  alertmanager_resources = none;
  topology_spread = [];
  config_selector = none;
}
zero_body alertmanager_config = record { root_receiver = ""; routes = []; receivers = [] }
zero_body prometheus_rule = []
zero_body pod_monitor = tt
zero_body service_monitor = tt
zero_body network_policy = record { ingress = []; policy_types = []; pod_selector = [] }
zero_body console_plugin = record {
  display_name = "";
  service_name = "";
  service_namespace = "";
  service_port = pos 0;
  base_path = "";
  proxy_alias = "";
  proxy_authorize = false;
  proxy_service_name = "";
  proxy_service_namespace = "";
  proxy_service_port = pos 0;
}
zero_body console = []
zero_body cluster_version = ""

-- `&T{}` with its name and namespace set.
unfoldable pub fresh : (k : Kind) → String → String → Resource k
unfolding zero_body named
fresh k name namespace = record { metadata = named name namespace; body = zero_body k }
