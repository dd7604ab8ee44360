-- ===== src/Tests/States.antt =====
-- The theorems on states, objects and lists, at concrete data.
use mcg_osd_deployer.Base.{
  ◌≡◌, refl, ◌↔◌, String, ◌<>◌, true, false, none, some, List, [], ◌∷◌, map,
}
use mcg_osd_deployer.Base.Int.{pos, ltb_ℤ}
use mcg_osd_deployer.Base.Dict.{Dict, lookup}
use mcg_osd_deployer.Exec.{Error, ok, pure, status}
use mcg_osd_deployer.Cluster.Api.{ready, not_found}
use mcg_osd_deployer.Cluster.Meta.{get_key}
use mcg_osd_deployer.Cluster.Zero.{fresh}
use mcg_osd_deployer.Cluster.Objects.{
  noobaa, prometheus, stateful_set, alertmanager, console_plugin, deployment, object_bucket_claim,
}
use mcg_osd_deployer.Controller.Reconciler.{prometheus_name, alertmanager_name, mcgms_console_name}
use mcg_osd_deployer.Controller.Status.{
  update_component_status, update_noobaa_component_status, update_prometheus_component_status,
  update_alertmanager_component_status, update_console_component_status, desired_replicas,
}
use mcg_osd_deployer.Controller.Status.Table.{
  IsDecided, components, update_component_status_decides,
}
use mcg_osd_deployer.Controller.Status.Exact.{noobaa_state_exact, prometheus_state_exact}
use mcg_osd_deployer.Controller.Status.Workloads.{alertmanager_state_exact, console_state_exact}
use mcg_osd_deployer.Controller.Bucket.{bucket_class_added, claim_as, set_obc_desired_state}
use mcg_osd_deployer.Cluster.Platform.{delete_request}
use mcg_osd_deployer.Controller.Bucket.Claims.{claim_created-claim_deleted}
use mcg_osd_deployer.Controller.Storage.{is_scaled, scale_down}
use mcg_osd_deployer.Controller.Storage.Scaling.{zeroed, any_running, scale_down_lem}
use mcg_osd_deployer.Controller.Monitoring.Labels.{label_rule}
use mcg_osd_deployer.Controller.Monitoring.Rules.{add_rule_label}
use mcg_osd_deployer.Controller.Monitoring.Rules.Added.{
  Pairwise, Relabelled, add_rule_label_everywhere,
}
use mcg_osd_deployer.Controller.Monitoring.Receivers.{
  addresses_from, alerting_address_key, config_receiver,
}
use mcg_osd_deployer.Controller.Monitoring.Receivers.Addresses.{IsRun, alerting_addresses_total}
use mcg_osd_deployer.Controller.Monitoring.Receivers.Template.{names, config_receiver-template}
use mcg_osd_deployer.Controller.Setup.{prometheus_rules_predicate, bucket_class_delete_predicate}
use mcg_osd_deployer.Controller.Setup.Events.{label_rule_settles}
use mcg_osd_deployer.Templates.Alerts.{alertmanager_config_template}
use mcg_osd_deployer.Cluster.Monitoring.{AlertmanagerConfigBody}
use mcg_osd_deployer.Tests.Server.{server, server-IsLawful, unary}
use mcg_osd_deployer.Tests.Data.{
  config, living, alone, reconciler, annotated, selected_rule, deployments, rule_groups,
  receiver_inputs,
}

update_component_status_decides_example :
    let (x, (r, s)) = update_component_status (server (alone living)) (reconciler living, []) in
    (x ≡ ok tt)
    × (r.managed.metadata ≡ living.metadata)
    × IsDecided (components r).noobaa
    × IsDecided (components r).prometheus
    × IsDecided (components r).alertmanager
    × IsDecided (components r).console
update_component_status_decides_example =
    update_component_status_decides (server (alone living)) (reconciler living) []

noobaa_state_exact_example :
    let state =
      (update_noobaa_component_status (server (alone living)) (reconciler living, [])
        ).1.0.managed.body.status.components.noobaa in
    let ((e, o), s) = (server (alone living)).get noobaa (reconciler living).the_noobaa [] in
    ((state ≡ ready) ↔ ((e ≡ none) × (o.body.phase ≡ "Ready")))
    × ((state ≡ not_found)
        ↔ ((why : Error) × (e ≡ some why) × ((server (alone living)).is_not_found why ≡ true)))
noobaa_state_exact_example =
    noobaa_state_exact (server (alone living)) (server-IsLawful (alone living)) (reconciler living)
      []

prometheus_state_exact_example :
    let ((e, o), s₁) =
      (server (alone living)).get prometheus (reconciler living).the_prometheus [] in
    let r =
      (update_prometheus_component_status (server (alone living)) (reconciler living, [])).1.0 in
    let set = fresh stateful_set ("prometheus-" <> prometheus_name) (reconciler living).namespace in
    let ((e', o'), s₂) = (server (alone living)).get stateful_set set s₁ in
    (r.managed.body.status.components.prometheus ≡ ready) ↔ (
      (e ≡ none)
      × (e' ≡ none)
      × (ltb_ℤ o'.body (desired_replicas o.body.prometheus_replicas) ≡ false))
prometheus_state_exact_example =
    prometheus_state_exact (server (alone living)) (server-IsLawful (alone living))
      (reconciler living) []

alertmanager_state_exact_example :
    let ((e, o), s₁) =
      (server (alone living)).get alertmanager (reconciler living).the_alertmanager [] in
    let r =
      (update_alertmanager_component_status (server (alone living)) (reconciler living, [])).1.0 in
    let set =
      fresh stateful_set ("alertmanager-" <> alertmanager_name) (reconciler living).namespace in
    let ((e', o'), s₂) = (server (alone living)).get stateful_set set s₁ in
    (r.managed.body.status.components.alertmanager ≡ ready) ↔ (
      (e ≡ none)
      × (e' ≡ none)
      × (ltb_ℤ o'.body (desired_replicas o.body.alertmanager_replicas) ≡ false))
alertmanager_state_exact_example =
    alertmanager_state_exact (server (alone living)) (server-IsLawful (alone living))
      (reconciler living) []

console_state_exact_example :
    let ((e, o), s₁) =
      (server (alone living)).get console_plugin (reconciler living).console_plugin_object [] in
    let r = (update_console_component_status (server (alone living)) (reconciler living, [])).1.0 in
    let d = fresh deployment mcgms_console_name (reconciler living).namespace in
    let ((e', d'), s₂) = (server (alone living)).get deployment d s₁ in
    (r.managed.body.status.components.console ≡ ready)
    ↔ ((e ≡ none) × (e' ≡ none) × (ltb_ℤ d'.body (pos 1) ≡ false))
console_state_exact_example =
    console_state_exact (server (alone living)) (server-IsLawful (alone living)) (reconciler living)
      []

claim_created-claim_deleted_example :
    let claim = fresh object_bucket_claim "b" "team" in
    ((bucket_class_added (server (alone living)) annotated (reconciler living, [])).1
      ≡ ((server (alone living)).create_or_update object_bucket_claim claim
          (λ o. pure (claim_as (set_obc_desired_state "b" annotated).1 o))
          (reconciler living, [])).1)
    × ((bucket_class_delete_predicate (server (alone living)) annotated (reconciler living, [])).1.1
        ≡ delete_request object_bucket_claim claim ∷ [])
unfolding get_key lookup server-IsLawful
claim_created-claim_deleted_example =
    claim_created-claim_deleted (server (alone living)) (server-IsLawful (alone living)) annotated
      "team" (reconciler living) [] (status "NotFound") refl refl refl refl

scale_down_lem_example :
    scale_down deployments ≡ ok (map zeroed deployments, any_running deployments)
unfolding is_scaled
scale_down_lem_example = scale_down_lem deployments (λ h. refl, (λ h. refl, (λ h. cc, tt)))

abbrev params : Dict String
params = ("notification-email-", "a@example.com") ∷ ("notification-email-i", "b@example.com") ∷ []

alerting_addresses_total_example :
    (out : List String) × (addresses_from (alerting_address_key unary) params 3 0 ≡ some out)
    × IsRun (alerting_address_key unary) params 0 out
alerting_addresses_total_example =
    alerting_addresses_total (server (alone living)) (server-IsLawful (alone living)) params

add_rule_label_everywhere_example :
    Pairwise
      (λ old new.
        (new.group_name ≡ old.group_name)
        × Pairwise (Relabelled "namespace" "ns") old.rules new.rules)
      rule_groups
      (add_rule_label "namespace" "ns" rule_groups)
add_rule_label_everywhere_example = add_rule_label_everywhere "namespace" "ns" rule_groups

label_rule_settles_example : prometheus_rules_predicate (label_rule selected_rule).metadata ≡ true
label_rule_settles_example = label_rule_settles selected_rule

config_receiver-template_example :
    (out : AlertmanagerConfigBody) × (config_receiver
        (λ host port. host <> (":" <> port))
        config
        receiver_inputs
        alertmanager_config_template
      ≡ some out)
    × (names out ≡ names alertmanager_config_template)
    × (out.root_receiver ≡ alertmanager_config_template.root_receiver)
    × (out.routes ≡ alertmanager_config_template.routes)
config_receiver-template_example =
    config_receiver-template (λ host port. host <> (":" <> port)) config receiver_inputs
