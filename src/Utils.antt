-- ===== src/Utils.antt =====
-- utils/utils.go and utils/resources.go: helpers on string slices and object metadata, and the
-- resources that each daemon is given.
pub mod Slices
pub mod Labels
use mcg_osd_deployer.Base.{
  String, Bool, true, false, Option, none, some, List, [], ◌∷◌, ◌==◌, if◌then◌else◌,
}
use mcg_osd_deployer.Base.Dict.{Dict, lookup, insert, erase}
use mcg_osd_deployer.Exec.{Outcome, ok, panic}
use mcg_osd_deployer.Cluster.Meta.{StringMap, ObjectMeta}
use mcg_osd_deployer.Cluster.Monitoring.{ResourceRequirements}

unfoldable pub contains : List String → String → Bool
contains [] s = false
contains (item ∷ rest) s = if item == s then true else contains rest s

unfoldable pub remove : List String → String → List String
remove [] s = []
remove (item ∷ rest) s = let kept = remove rest s in if item == s then kept else item ∷ kept

-- A write through a map that is made first where it is nil.
unfoldable pub put : StringMap → String → String → StringMap
unfolding insert
put none key value = some (insert key value [])
put (some m) key value = some (insert key value m)

unfoldable pub add_label : ObjectMeta → String → String → ObjectMeta
unfolding put
add_label obj key value = record obj { labels = put obj.labels key value }

-- `delete` on a nil map does nothing.
unfoldable pub drop_key : StringMap → String → StringMap
unfolding erase
drop_key none key = none
drop_key (some m) key = some (erase key m)

unfoldable pub remove_label : ObjectMeta → String → ObjectMeta
unfolding drop_key
remove_label obj key = record obj { labels = drop_key obj.labels key }

unfoldable pub add_annotation : ObjectMeta → String → String → ObjectMeta
unfolding put
add_annotation obj key value = record obj { annotations = put obj.annotations key value }

unfoldable pub map_items : List String → (String → String) → List String
map_items [] transform = []
map_items (item ∷ rest) transform = transform item ∷ map_items rest transform

abbrev cpu_memory : String → String → ResourceRequirements
cpu_memory cpu memory = record {
  requests = ("cpu", cpu) ∷ ("memory", memory) ∷ [];
  limits = ("cpu", cpu) ∷ ("memory", memory) ∷ [];
}

unfoldable pub resource_requirements : Dict ResourceRequirements
resource_requirements =
    ("noobaa-core", cpu_memory "1" "4Gi")
    ∷ ("noobaa-db", cpu_memory "500m" "4Gi")
    ∷ ("noobaa-db-vol", record { requests = ("storage", "50Gi") ∷ []; limits = [] })
    ∷ ("noobaa-endpoint", cpu_memory "1" "2Gi")
    ∷ ("prometheus", cpu_memory "500m" "250Mi")
    ∷ ("alertmanager", cpu_memory "200m" "200Mi")
    ∷ ("kube-rbac-proxy", cpu_memory "50m" "30Mi")
    ∷ []

abbrev or_panic : String → Option ResourceRequirements → Outcome ResourceRequirements
or_panic name none = panic "Resource requirement not found"
or_panic name (some req) = ok req

unfoldable pub get_resource_requirements : String → Outcome ResourceRequirements
unfolding resource_requirements lookup
get_resource_requirements name = or_panic name (lookup name resource_requirements)
