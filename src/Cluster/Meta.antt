-- ===== src/Cluster/Meta.antt =====
-- `metav1.ObjectMeta`, as far as the operator reads or writes it.
use mcg_osd_deployer.Base.{ℕ, String, Option, none, some, List, []}
use mcg_osd_deployer.Base.Dict.{Dict, lookup}

-- A `map[string]string`, where `none` is the nil map.
abbrev pub StringMap : Type 0
StringMap = Option (Dict String)

-- `value, ok := m[key]`, which reads the nil map as an empty one.
unfoldable pub get_key : String → StringMap → Option String
unfolding lookup
get_key k none = none
get_key k (some m) = lookup k m

-- A value that is missing reads as the empty string.
abbrev pub or_empty : Option String → String
or_empty none = ""
or_empty (some s) = s

pub record OwnerReference : Type 0 where
  pub owner_name : String
  pub owner_uid : String

pub record ObjectMeta : Type 0 where
  pub name : String
  pub namespace : String
  pub uid : String
  pub labels : StringMap
  pub annotations : StringMap
  pub finalizers : List String
  pub owner_references : List OwnerReference
  pub deletion_timestamp : Option ℕ

-- The metadata of a fresh object, with its name and namespace filled in.
unfoldable pub named : String → String → ObjectMeta
named name namespace = record {
  name = name;
  namespace = namespace;
  uid = "";
  labels = none;
  annotations = none;
  finalizers = [];
  owner_references = [];
  deletion_timestamp = none;
}
