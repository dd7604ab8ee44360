-- ===== src/Controller/Monitoring/Labels/Marks.antt =====
-- Which monitoring resources carry the label afterwards, and which rules lead to another
-- reconciliation.
use mcg_osd_deployer.Base.{
  ◌≡◌, refl, String, Bool, false, not, Option, none, some, ◌==◌, Bool-cases, inl, inr,
}
use mcg_osd_deployer.Utils.{add_label, remove_label}
use mcg_osd_deployer.Utils.Labels.{get_key-put, get_key-drop_key}
use mcg_osd_deployer.Cluster.Meta.{ObjectMeta, get_key, or_empty}
use mcg_osd_deployer.Cluster.Objects.{Resource, prometheus_rule}
use mcg_osd_deployer.Controller.Reconciler.{mon_label_key, mon_label_value}
use mcg_osd_deployer.Controller.Monitoring.Labels.{label_monitor, label_rule, holds_value}

-- Prometheus' selector matches the object.
abbrev pub is_selected : ObjectMeta → Bool
is_selected m = or_empty (get_key mon_label_key m.labels) == mon_label_value

excluded :
    (m : ObjectMeta) (o : Option String)
    → get_key mon_label_key m.labels ≡ o
    → is_selected (holds_value mon_label_value o m) ≡ false
unfolding remove_label
excluded m none e = rw e refl
excluded m (some v) e = elim (Bool-cases (v == mon_label_value)) [
  | inl t ↦ rw (t, get_key-drop_key) refl
  | inr f ↦ rw (f, e) f
]

-- Of the Prometheus rules, those and only those that are not called `noobaa-prometheus-rules` are
-- selected afterwards, whatever labels they had.
pub label_rule_selects :
    (o : Resource prometheus_rule)
    → is_selected (label_rule o).metadata ≡ not (o.metadata.name == "noobaa-prometheus-rules")
unfolding label_rule label_monitor add_label
label_rule_selects o = elim (Bool-cases (o.metadata.name == "noobaa-prometheus-rules")) [
  | inl t ↦ rw t (excluded o.metadata _ refl)
  | inr f ↦ rw (f, get_key-put) refl
]
