-- ===== src/Controller/Monitoring/Rules/Added.antt =====
-- The labels that the alert rules carry afterwards.
use mcg_osd_deployer.Base.{◌≡◌, refl, String, some, List, [], ◌∷◌, ◌==◌, if◌then◌else◌}
use mcg_osd_deployer.Utils.Labels.{get_key-put}
use mcg_osd_deployer.Cluster.Meta.{get_key}
use mcg_osd_deployer.Cluster.Monitoring.{Rule, RuleGroup}
use mcg_osd_deployer.Controller.Monitoring.Rules.{label_rules, add_rule_label}

-- A rule of the new list beside the rule that it was: one label is set, and the rest is the same.
abbrev pub Relabelled : String → String → Rule → Rule → Type 0
Relabelled label value old new =
    ((j : String)
      → get_key j new.rule_labels ≡ (if label == j then some value else get_key j old.rule_labels))
    × (new.alert ≡ old.alert)
    × (new.expr ≡ old.expr)
    × (new.record_name ≡ old.record_name)
    × (new.rule_annotations ≡ old.rule_annotations)

-- Two lists of the same length, with items that are related place by place.
abbrev pub Pairwise {ℓ} : {A : Type ℓ} → (A → A → Type 0) → List A → List A → Type 0
Pairwise R [] [] = Unit
Pairwise R [] (y ∷ ys) = ⊥
Pairwise R (x ∷ xs) [] = ⊥
Pairwise R (x ∷ xs) (y ∷ ys) = R x y × Pairwise R xs ys

label_rules-Pairwise :
    (label value : String) (rules : List Rule)
    → Pairwise (Relabelled label value) rules (label_rules label value rules)
unfolding label_rules
label_rules-Pairwise label value [] = tt
label_rules-Pairwise label value (rule ∷ rest) = (
  (λ j. get_key-put rule.rule_labels label j value, refl, refl, refl, refl),
  label_rules-Pairwise label value rest,
)

-- `addLabel` sets its label on every rule of every group, also where a rule had no labels, keeps the
-- order and names of groups and rules, and changes no other label and nothing else of a rule.
pub add_rule_label_everywhere :
    (label value : String) (groups : List RuleGroup)
    → Pairwise
        (λ old new.
          (new.group_name ≡ old.group_name) × Pairwise (Relabelled label value) old.rules new.rules)
        groups
        (add_rule_label label value groups)
unfolding add_rule_label
add_rule_label_everywhere label value [] = tt
add_rule_label_everywhere label value (g ∷ rest) =
    ((refl, label_rules-Pairwise label value g.rules), add_rule_label_everywhere label value rest)
