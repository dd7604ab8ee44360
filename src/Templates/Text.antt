-- ===== src/Templates/Text.antt =====
-- `strings.Join`, and the regular expressions that the templates build with it.
use mcg_osd_deployer.Base.{String, ◌<>◌, Option, none, some, List, [], ◌∷◌}
use mcg_osd_deployer.Exec.{ok, err, panic}
use mcg_osd_deployer.Utils.{map_items, get_resource_requirements}
use mcg_osd_deployer.Cluster.Monitoring.{ResourceRequirements}

-- `strings.Join(items, sep)`
unfoldable pub join : List String → String → String
join [] sep = ""
join (item ∷ []) sep = item
join (item ∷ next ∷ rest) sep = item <> (sep <> join (next ∷ rest) sep)

unfoldable pub get_regex_matcher : List String → String
unfolding join
get_regex_matcher alerts = "^" <> (join alerts "$|^" <> "$")

unfoldable pub get_relabel_regex : List String → List String → String
unfolding join map_items
get_relabel_regex alerts metrics =
    "(ALERTS;("
    <> (join alerts "|" <> ("))|" <> join (map_items metrics (λ str. "(" <> (str <> ";)"))) "|"))

-- The requirements of a daemon as a template holds them; a name that is not known panics when the
-- program starts, and is `none` here.
unfoldable pub required : String → Option ResourceRequirements
unfolding get_resource_requirements
required name = elim (get_resource_requirements name) [
  | ok req ↦ some req
  | err e ↦ none
  | panic why ↦ none
]
