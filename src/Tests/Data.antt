-- ===== src/Tests/Data.antt =====
-- The data of the tests: a configuration, ManagedMCG resources and the answers of a server.
use mcg_osd_deployer.Base.{String, Option, none, some, List, [], ◌∷◌}
use mcg_osd_deployer.Exec.{Error, errorf}
use mcg_osd_deployer.Cluster.Api.{
  strategy_strict, ComponentState, not_found, other, ComponentStatusMap,
}
use mcg_osd_deployer.Base.Int.{pos}
use mcg_osd_deployer.Cluster.Meta.{ObjectMeta}
use mcg_osd_deployer.Cluster.Monitoring.{Container, RuleGroup, StrategyDeploymentSpec}
use mcg_osd_deployer.Controller.Monitoring.Receivers.{ReceiverInputs}
use mcg_osd_deployer.Cluster.Objects.{
  Kind, managed_mcg, noobaa, bucket_class, backing_store, cluster_service_version, prometheus_rule,
  Resource,
}
use mcg_osd_deployer.Cluster.Zero.{fresh}
use mcg_osd_deployer.Cluster.Platform.{Request}
use mcg_osd_deployer.Controller.Reconciler.{
  Config, Reconciler, initialize_reconciler, managed_mcg_finalizer,
}
use mcg_osd_deployer.Tests.Server.{Scenario, not_found as missing}

abbrev pub config : Config
config = record {
  addon_config_map_delete_label_key = "api.openshift.com/addon-mcg-delete";
  addon_config_map_name = "mcg";
  addon_param_secret_name = "addon-mcg-parameters";
  dead_mans_snitch_secret_name = "mcg-deadmanssnitch";
  customer_notification_html_path = "templates/customernotification.html";
  smtp_secret_name = "mcg-smtp";
  sop_endpoint = "https://sop";
  alert_smtp_from = "noreply@example.com";
  console_port = pos 9002;
  pagerduty_secret_name = "mcg-pagerduty";
  rhobs_secret_name = "mcg-prom-remote-write";
  rhobs_endpoint = "https://rhobs";
  rhsso_token_endpoint = "https://sso";
  addon_variant = "mcg";
  addon_environment = "test";
  noobaa_core_image = "core";
  noobaa_db_image = "db";
}

abbrev pub metadata : List String → ObjectMeta
metadata finalizers = record {
  name = "managedmcg";
  namespace = "ns";
  uid = "1";
  labels = none;
  annotations = none;
  finalizers = finalizers;
  owner_references = [];
  deletion_timestamp = none;
}

abbrev pub all_in : ComponentState → ComponentStatusMap
all_in state = record { noobaa = state; prometheus = state; alertmanager = state; console = state }

-- A ManagedMCG that holds the finalizer beside another one.
abbrev pub living : Resource managed_mcg
living = record {
  metadata = metadata (managed_mcg_finalizer ∷ "other" ∷ []);
  body = record {
    spec_strategy = strategy_strict;
    status = record { reconcile_strategy = strategy_strict; components = all_in (other "") };
  };
}

-- The same, while it is being deleted.
abbrev pub leaving : Resource managed_mcg
leaving =
    let m = living.metadata in record living { metadata = record m { deletion_timestamp = some 7 } }

-- The same once NooBaa is gone.
abbrev pub left_alone : Resource managed_mcg
left_alone =
    let b = leaving.body in
    let st = b.status in
    record leaving { body = record b { status = record st { components = all_in not_found } } }

abbrev pub only_managed : Resource managed_mcg → (k : Kind) → Resource k → Option Error × Resource k
only_managed m managed_mcg o = (none, m)
only_managed m _ o = (some missing, o)

-- The server has the ManagedMCG `m`, and nothing else.
abbrev pub alone : Resource managed_mcg → Scenario
alone m = record { answer = only_managed m; items = λ log k. []; status_error = none }

abbrev pub unreachable : Resource managed_mcg → (k : Kind) → Resource k → Option Error × Resource k
unreachable m managed_mcg o = (none, m)
unreachable m noobaa o = (some (errorf "connection refused"), o)
unreachable m _ o = (some missing, o)

-- The same where NooBaa cannot be asked for.
abbrev pub cut_off : Resource managed_mcg → Scenario
cut_off m = record { answer = unreachable m; items = λ log k. []; status_error = none }

-- A bucket class that asks for a claim, and is ready.
abbrev pub annotated : Resource bucket_class
annotated =
    let m = metadata [] in
    record {
      metadata = record m { name = "b"; annotations = some (("mcgms-obc-namespace", "team") ∷ []) };
      body = record { class_phase = "Ready" };
    }

abbrev pub proxy : Container
proxy = record {
  container_name = "kube-rbac-proxy";
  image = "proxy:v1";
  args = [];
  container_ports = [];
  volume_mounts = [];
  resources = none;
}

abbrev pub operator_csv : Resource cluster_service_version
operator_csv =
    let m = metadata [] in
    record {
      metadata = record m { name = "mcg-osd-deployer.v1.0.0" };
      body =
          record {
            deployment_name = "mcg-osd-deployer-controller-manager";
            replicas = some (pos 1);
            containers = proxy ∷ [];
          }
          ∷ [];
    }

-- A bucket class until something is asked for, a store, and the operator's CSV.
abbrev stock : List Request → (k : Kind) → List (Resource k)
stock [] bucket_class = annotated ∷ []
stock log backing_store = fresh backing_store "s3" "ns" ∷ []
stock log cluster_service_version = operator_csv ∷ []
stock log _ = []

abbrev served : Resource managed_mcg → (k : Kind) → Resource k → Option Error × Resource k
served m managed_mcg o = (none, m)
served m noobaa o = (none, o)
served m _ o = (some missing, o)

-- The server has these and NooBaa beside the ManagedMCG.
abbrev pub stocked : Resource managed_mcg → Scenario
stocked m = record { answer = served m; items = stock; status_error = none }

-- The reconciler after the ManagedMCG was fetched.
abbrev pub reconciler : Resource managed_mcg → Reconciler
reconciler m =
    let r = initialize_reconciler config strategy_strict "ns" "managedmcg" in
    record r { managed = m }

-- A Prometheus rule of the MCG operator, which has the label.
abbrev pub selected_rule : Resource prometheus_rule
selected_rule =
    let m = metadata [] in
    record {
      metadata = record m {
        name = "noobaa-prometheus-rules";
        labels = some (("app", "managed-mcg") ∷ []);
      };
      body = [];
    }

abbrev pub deployments : List StrategyDeploymentSpec
deployments =
    record { deployment_name = "ocs-operator"; replicas = some (pos 1); containers = [] }
    ∷ record { deployment_name = "rook-ceph-operator"; replicas = some (pos 1); containers = [] }
    ∷ record { deployment_name = "odf-console"; replicas = none; containers = [] }
    ∷ []

abbrev pub rule_groups : List RuleGroup
rule_groups =
    record {
      group_name = "g";
      rules =
          record {
            alert = "a";
            record_name = "";
            expr = "vector(1)";
            rule_labels = none;
            rule_annotations = none;
          }
          ∷ [];
    }
    ∷ []

abbrev pub receiver_inputs : ReceiverInputs
receiver_inputs = record {
  dms_url = "https://snitch";
  addresses = "a@example.com" ∷ [];
  smtp_html = "<html>";
  smtp_entries = ("host", "h") ∷ [];
}

-- Every variable is set.
abbrev pub environment : String → Option String
environment key = some key
