-- ===== src/Controller/Storage/Annotation.antt =====
-- The annotation of the default backing store, once it is set.
use mcg_osd_deployer.Base.{
  ◌≡◌, refl, String, Bool, false, not, ◌&&◌, ◌==◌, Bool-cases, inl, inr, arith,
}
use mcg_osd_deployer.Utils.{add_annotation, put}
use mcg_osd_deployer.Utils.Labels.{get_key-put}
use mcg_osd_deployer.Cluster.Meta.{get_key, or_empty}
use mcg_osd_deployer.Cluster.Objects.{Resource, NooBaaSpec, noobaa}
use mcg_osd_deployer.Controller.Storage.{noobaa_as}

abbrev key : String
key = "default-backing-store"

-- The annotation is missing or empty, and there is a backing store to be named.
abbrev pub is_due : Resource noobaa → String → Bool
is_due o backing_store =
    or_empty (get_key key o.metadata.annotations) == "" && not (backing_store == "")

named_store :
    (o : Resource noobaa) (backing_store : String)
    → or_empty (get_key key (put o.metadata.annotations key backing_store)) ≡ backing_store
named_store o backing_store = rw get_key-put refl

-- What the callback of `reconcileNoobaaComponent` makes of a NooBaa is not changed by a second pass:
-- it names a default backing store where none is named and one is there, and then keeps it.
noobaa_as_twice :
    (backing_store : String) (desired : NooBaaSpec) (o : Resource noobaa)
    → let o' = noobaa_as o.metadata.annotations backing_store desired o in
      (noobaa_as o'.metadata.annotations backing_store desired o' ≡ o')
      × (is_due o' backing_store ≡ false)
unfolding noobaa_as add_annotation
noobaa_as_twice backing_store desired o = elim (Bool-cases (is_due o backing_store)) [
  | inl t ↦
      let store : (backing_store == "") ≡ false = ground (arith, t) in
      rw (t, named_store o backing_store, store) (refl, refl)
  | inr f ↦ rw (f, f) (refl, refl)
]
