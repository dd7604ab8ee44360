-- ===== src/Controller/Setup/Events.antt =====
-- The operator's own labelling of the Prometheus rules does not lead to another reconciliation.
use mcg_osd_deployer.Base.{◌≡◌, refl, String, false, not, ◌||◌, none, some, ◌==◌, arith, eq_iff}
use mcg_osd_deployer.Cluster.Meta.{ObjectMeta, StringMap, get_key, or_empty}
use mcg_osd_deployer.Cluster.Objects.{Resource, prometheus_rule}
use mcg_osd_deployer.Controller.Setup.{is_nil, prometheus_rules_predicate}
use mcg_osd_deployer.Controller.Monitoring.Labels.{label_rule}
use mcg_osd_deployer.Controller.Monitoring.Labels.Marks.{is_selected, label_rule_selects}

-- The nil map has no value to compare.
is_nil_lem :
    (m : StringMap) (key value : String)
    → (value == "") ≡ false
    → (is_nil m || not (or_empty (get_key key m) == value))
      ≡ not (or_empty (get_key key m) == value)
unfolding get_key
is_nil_lem none key value h = ground (arith, eq_iff value "", eq_iff "" value)
is_nil_lem (some d) key value h = refl

predicate-is_selected : (m : ObjectMeta) → prometheus_rules_predicate m ≡ not (is_selected m)
unfolding prometheus_rules_predicate
predicate-is_selected m = is_nil_lem m.labels _ _ refl

-- The event of a Prometheus rule that a reconciliation has just labelled leads to another
-- reconciliation only for the rules called `noobaa-prometheus-rules`.
pub label_rule_settles :
    (o : Resource prometheus_rule)
    → prometheus_rules_predicate (label_rule o).metadata
      ≡ (o.metadata.name == "noobaa-prometheus-rules")
label_rule_settles o = rw (predicate-is_selected, label_rule_selects) (ground arith)
