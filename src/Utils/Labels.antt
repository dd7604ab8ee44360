-- ===== src/Utils/Labels.antt =====
-- What the label and annotation helpers leave on an object.
use mcg_osd_deployer.Base.{
  ◌≡◌, ap, ◌∙◌, String, false, none, some, [], ◌==◌, if◌then◌else◌, eq_iff, arith,
}
use mcg_osd_deployer.Base.Dict.{
  lookup-insert, lookup-erase, insert-lookup, insert-insert, insert-insert-insert,
}
use mcg_osd_deployer.Cluster.Meta.{StringMap, ObjectMeta, get_key}
use mcg_osd_deployer.Utils.{put, drop_key, add_label, remove_label}

pub get_key-put :
    (m : StringMap) (k j v : String)
    → get_key j (put m k v) ≡ (if k == j then some v else get_key j m)
unfolding get_key put
get_key-put none k j v = lookup-insert k j v []
get_key-put (some m) k j v = lookup-insert k j v m

pub get_key-drop_key :
    (m : StringMap) (k j : String)
    → get_key j (drop_key m k) ≡ (if k == j then none else get_key j m)
unfolding get_key drop_key
get_key-drop_key none k j = ground (arith, eq_iff k j)
get_key-drop_key (some m) k j = lookup-erase k j m

-- `AddLabel` sets its label, also on an object that had no labels, and leaves all others; taking the
-- label off with `RemoveLabel` leaves the others too, and no label of that key.
pub remove_label-add_label :
    (m : ObjectMeta) (k j v : String)
    → (get_key j (add_label m k v).labels ≡ (if k == j then some v else get_key j m.labels))
      × (get_key j (remove_label (add_label m k v) k).labels
          ≡ (if k == j then none else get_key j m.labels))
unfolding add_label remove_label
remove_label-add_label m k j v =
    (get_key-put m.labels k j v, rw (get_key-drop_key, get_key-put) (ground (arith, eq_iff k j)))

-- What is set already is left alone.
put-get_key : (m : StringMap) (k v : String) → get_key k m ≡ some v → put m k v ≡ m
unfolding get_key put
put-get_key none k v h = cc
put-get_key (some m) k v h = rw (insert-lookup k v m h)

pub put-put : (m : StringMap) (k v : String) → put (put m k v) k v ≡ put m k v
put-put m k v = put-get_key (put m k v) k v (rw get_key-put (ground (arith, eq_iff k k)))

pub put-overwrites : (m : StringMap) (k old new : String) → put (put m k old) k new ≡ put m k new
unfolding put
put-overwrites none k old new = ap some (insert-insert k old new [])
put-overwrites (some m) k old new = ap some (insert-insert k old new m)

-- A value that others have set under the key is replaced.
pub put-restores : (m : StringMap) (k v w : String) → put (put (put m k v) k w) k v ≡ put m k v
put-restores m k v w = put-overwrites (put m k v) k w v ∙ put-put m k v

-- The same for two keys, set one after the other.
pub put-put-put :
    (m : StringMap) (k k' v : String)
    → (k' == k) ≡ false
    → put (put (put (put m k v) k' v) k v) k' v ≡ put (put m k v) k' v
put-put-put m k k' v apart =
    let h : get_key k (put (put m k v) k' v) ≡ some v =
      rw (get_key-put, get_key-put) (ground (arith, eq_iff k k, apart)) in
    rw (put-get_key (put (put m k v) k' v) k v h, put-put)

put_past :
    (m : StringMap) (k k' old new v : String)
    → (k' == k) ≡ false
    → put (put (put m k old) k' v) k new ≡ put (put m k new) k' v
unfolding put
put_past none k k' old new v apart = ap some (insert-insert-insert k k' old new v [] apart)
put_past (some m) k k' old new v apart = ap some (insert-insert-insert k k' old new v m apart)

-- Two keys, both of which others have set to something else.
pub put_both_restores :
    (m : StringMap) (k k' v w w' : String)
    → (k' == k) ≡ false
    → put (put (put (put (put (put m k v) k' v) k w) k' w') k v) k' v ≡ put (put m k v) k' v
put_both_restores m k k' v w w' apart =
    let d = put (put m k v) k' v in
    ap (λ x. put x k' v) (put_past d k k' w v w' apart)
    ∙ put-overwrites (put d k v) k' w' v
    ∙ put-put-put m k k' v apart
