-- ===== src/Cluster/Monitoring.antt =====
-- The parts of the monitoring, workload and network objects that the operator reads or writes.
use mcg_osd_deployer.Base.{ℕ, String, Bool, Option, List, ◌⊎◌}
use mcg_osd_deployer.Base.Int.{ℤ}
use mcg_osd_deployer.Base.Dict.{Dict}
use mcg_osd_deployer.Cluster.Meta.{StringMap}

-- Quantities are kept as they are written.
pub record ResourceRequirements : Type 0 where
  pub requests : Dict String
  pub limits : Dict String

pub record SecretKeySelector : Type 0 where
  pub secret_name : String
  pub secret_key : String

pub record VolumeMount : Type 0 where
  pub volume_name : String
  pub mount_path : String

pub record Container : Type 0 where
  pub container_name : String
  pub image : String
  pub args : List String
  pub container_ports : List (String × ℕ)
  pub volume_mounts : List VolumeMount
  pub resources : Option ResourceRequirements

-- A deployment in an install strategy. `replicas` is a pointer to an int32.
pub record StrategyDeploymentSpec : Type 0 where
  pub deployment_name : String
  pub replicas : Option ℤ
  pub containers : List Container

pub record ServicePort : Type 0 where
  pub port_name : String
  pub protocol : String
  pub port : ℤ
  pub target_port : ℤ ⊎ String

pub record ServiceBody : Type 0 where
  pub ports : List ServicePort
  pub selector : StringMap
  pub service_type : String

pub data VolumeSource : Type 0 where
  secret_volume config_map_volume : String → VolumeSource

pub record OAuth2 : Type 0 where
  pub client_id : SecretKeySelector
  pub client_secret : SecretKeySelector
  pub token_url : String
  pub endpoint_params : Dict String

pub record RelabelConfig : Type 0 where
  pub source_labels : List String
  pub regex : String
  pub action : String

pub record RemoteWriteSpec : Type 0 where
  pub url : String
  pub oauth2 : OAuth2
  pub write_relabel_configs : List RelabelConfig

pub record AlertmanagerEndpoints : Type 0 where
  pub endpoints_namespace : String
  pub endpoints_name : String
  pub endpoints_port : String

pub record PrometheusBody : Type 0 where
  pub prometheus_replicas : Option ℤ
  pub service_monitor_selector : StringMap
  pub pod_monitor_selector : StringMap
  pub rule_selector : StringMap
  pub volumes : List (String × VolumeSource)
  pub prometheus_resources : Option ResourceRequirements
  pub service_account_name : String
  pub listen_local : Bool
  pub prometheus_containers : List Container
  pub remote_write : List RemoteWriteSpec
  pub alertmanagers : List AlertmanagerEndpoints
  pub additional_alert_relabel_configs : Option SecretKeySelector

pub record TopologySpread : Type 0 where
  pub max_skew : ℕ
  pub spread_selector : StringMap
  pub when_unsatisfiable : String
  pub topology_key : String

pub record AlertmanagerBody : Type 0 where
  pub alertmanager_replicas : Option ℤ
  pub alertmanager_resources : Option ResourceRequirements
  pub topology_spread : List TopologySpread
  pub config_selector : StringMap

pub record Rule : Type 0 where
  pub alert : String
  pub record_name : String
  pub expr : String
  pub rule_labels : StringMap
  pub rule_annotations : StringMap

pub record RuleGroup : Type 0 where
  pub group_name : String
  pub rules : List Rule

pub record PagerDutyConfig : Type 0 where
  pub service_key : SecretKeySelector
  pub details : List (String × String)

pub record EmailConfig : Type 0 where
  pub send_resolved : Option Bool
  pub smarthost : String
  pub from : String
  pub to : String
  pub auth_username : String
  pub auth_password : SecretKeySelector
  pub html : String
  pub headers : List (String × String)

pub record Receiver : Type 0 where
  pub receiver_name : String
  pub pager_duty_configs : List PagerDutyConfig
  pub webhook_urls : List (Option String)
  pub email_configs : List EmailConfig

pub record Matcher : Type 0 where
  pub matcher_name : String
  pub matcher_value : String
  pub match_type : String

pub record Route : Type 0 where
  pub group_by : List String
  pub group_wait : String
  pub group_interval : String
  pub repeat_interval : String
  pub matchers : List Matcher
  pub route_receiver : String

pub record AlertmanagerConfigBody : Type 0 where
  pub root_receiver : String
  pub routes : List Route
  pub receivers : List Receiver

pub record SelectorRequirement : Type 0 where
  pub requirement_key : String
  pub requirement_operator : String
  pub requirement_values : List String

-- A peer of an ingress rule is a pod or a namespace selector.
pub data NetworkPolicyPeer : Type 0 where
  pod_peer namespace_peer : StringMap → NetworkPolicyPeer

pub record IngressRule : Type 0 where
  pub peers : List NetworkPolicyPeer
  pub ingress_ports : List (ℕ × String)

pub record NetworkPolicyBody : Type 0 where
  pub ingress : List IngressRule
  pub policy_types : List String
  pub pod_selector : List SelectorRequirement
