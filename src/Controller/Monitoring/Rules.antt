-- ===== src/Controller/Monitoring/Rules.antt =====
-- `reconcileDMSPrometheusRule` and `reconcileNoobaaRules`.
pub mod Added
use mcg_osd_deployer.Base.{
  String, Option, none, some, List, [], ◌∷◌, map, ◌==◌, if◌then◌else◌, ◌⊎◌, inl, inr,
}
use mcg_osd_deployer.Base.Dict.{insert}
use mcg_osd_deployer.Exec.{
  Error, wrapf, Outcome, ok, err, panic, Exec, pure, lift, when, wrapping, ◌>>=◌, ◌>>◌,
}
use mcg_osd_deployer.Utils.{put}
use mcg_osd_deployer.Cluster.Meta.{StringMap}
use mcg_osd_deployer.Cluster.Monitoring.{Rule, RuleGroup}
use mcg_osd_deployer.Cluster.Objects.{Resource, prometheus_rule, cluster_version}
use mcg_osd_deployer.Cluster.Platform.{Platform}
use mcg_osd_deployer.Controller.Reconciler.{Reconciler}
use mcg_osd_deployer.Controller.Calls.{M, or_panics, this, on_cluster, own}
use mcg_osd_deployer.Templates.Alerts.{dms_prometheus_rule_template}

-- `labels[key] = value` with no check; `none` is the panic of an assignment to a nil map.
unfoldable pub assign : StringMap → String → String → Option StringMap
unfolding insert
assign none key value = none
assign (some m) key value = some (some (insert key value m))

abbrev relabelled : Rule → Option StringMap → Option Rule
relabelled rule none = none
relabelled rule (some labels) = some (record rule { rule_labels = labels })

unfoldable pub name_snitch_rule : String → Rule → Option Rule
unfolding assign
name_snitch_rule namespace rule =
    if rule.alert == "DeadMansSnitch"
    then relabelled rule (assign rule.rule_labels "namespace" namespace)
    else some rule

abbrev both {ℓ} : {A : Type ℓ} → Option A → Option (List A) → Option (List A)
both none rest = none
both (some a) none = none
both (some a) (some rest) = some (a ∷ rest)

unfoldable pub name_snitch_rules : String → List Rule → Option (List Rule)
unfolding name_snitch_rule
name_snitch_rules namespace [] = some []
name_snitch_rules namespace (rule ∷ rest) =
    both (name_snitch_rule namespace rule) (name_snitch_rules namespace rest)

abbrev regrouped : RuleGroup → Option (List Rule) → Option RuleGroup
regrouped group none = none
regrouped group (some rules) = some (record group { rules = rules })

-- The two loops over the groups of the template and their rules.
unfoldable pub name_snitch_groups : String → List RuleGroup → Option (List RuleGroup)
unfolding name_snitch_rules
name_snitch_groups namespace [] = some []
name_snitch_groups namespace (group ∷ rest) =
    both
      (if group.group_name == "snitch-alert"
        then regrouped group (name_snitch_rules namespace group.rules)
        else some group)
      (name_snitch_groups namespace rest)

-- The helper `addLabel`: one label on every rule of every group.
unfoldable pub label_rules : String → String → List Rule → List Rule
unfolding put
label_rules label value [] = []
label_rules label value (rule ∷ rest) =
    record rule { rule_labels = put rule.rule_labels label value } ∷ label_rules label value rest

unfoldable pub add_rule_label : String → String → List RuleGroup → List RuleGroup
unfolding label_rules
add_rule_label label value [] = []
add_rule_label label value (group ∷ rest) =
    record group { rules = label_rules label value group.rules } ∷ add_rule_label label value rest

-- The loop over the cluster versions, up to the one that is named `version`.
unfoldable pub add_cluster_id : List (Resource cluster_version) → List RuleGroup → List RuleGroup
unfolding add_rule_label
add_cluster_id [] groups = groups
add_cluster_id (cv ∷ rest) groups =
    if cv.metadata.name == "version"
    then add_rule_label "cluster_id" cv.body groups
    else add_cluster_id rest groups

module _ (P : Platform) where
  -- The callback of `reconcileDMSPrometheusRule`.
  unfoldable pub dms_rule_as : Resource prometheus_rule → M P (Resource prometheus_rule)
  unfolding this own name_snitch_groups dms_prometheus_rule_template
  dms_rule_as o = do
    r ← this P
    o' ← own P o
    groups ← or_panics P (name_snitch_groups r.namespace dms_prometheus_rule_template)
    pure (record o' { body = groups })

  unfoldable pub reconcile_dms_prometheus_rule : M P (Unit {0})
  unfolding this dms_rule_as
  reconcile_dms_prometheus_rule = do
    r ← this P
    o ←
        wrapping "failed to reconcile DMS Prometheus Rule"
          (P.create_or_update prometheus_rule r.dms_rule dms_rule_as)
    pure tt

  abbrev pub unmarshalled : Error ⊎ List RuleGroup → Outcome (List RuleGroup)
  unmarshalled (inl e) = err (wrapf "failed to unmarshal noobaa-rules.yaml" e)
  unmarshalled (inr groups) = ok groups

  -- The callback of `reconcileNoobaaRules`.
  unfoldable pub noobaa_rules_as : Resource prometheus_rule → M P (Resource prometheus_rule)
  unfolding this own add_rule_label on_cluster
  noobaa_rules_as o = do
    r ← this P
    o' ← own P o
    groups ← lift (unmarshalled (P.unmarshal_noobaa_rules o'.body))
    versions ←
        wrapping "failed to get the clusterversion" (on_cluster P (P.list cluster_version none))
    pure (record o' {
      body = add_cluster_id versions (
          add_rule_label "environment" r.config.addon_environment
            (add_rule_label "variant" r.config.addon_variant groups));
    })

  unfoldable pub reconcile_noobaa_rules : M P (Unit {0})
  unfolding this
  reconcile_noobaa_rules = do
    r ← this P
    o ←
        wrapping "failed to reconcile custom Noobaa Prometheus Rules"
          (P.create_or_update prometheus_rule r.noobaa_rules noobaa_rules_as)
    pure tt
