-- ===== src/Safety/Removal.antt =====
-- The requests of a removal: of NooBaa and its stores, of the operator's CSV, and of the finalizer.
use mcg_osd_deployer.Base.{String, some, List, ◌⊎◌, inl, inr}
use mcg_osd_deployer.Exec.{Error, ◌>>=◌}
use mcg_osd_deployer.Exec.Keeps.{Keeps, Keeps-bind, Keeps-pure, Keeps-wrapping, keeps_rules}
use mcg_osd_deployer.Cluster.Objects.{
  Resource, managed_mcg, noobaa, bucket_class, backing_store, namespace_store,
  cluster_service_version,
}
use mcg_osd_deployer.Cluster.Platform.{Platform, IsLawful, Request, update_request, delete_request}
use mcg_osd_deployer.Controller.Reconciler.{Reconciler}
use mcg_osd_deployer.Controller.Calls.{update}
use mcg_osd_deployer.Controller.Uninstall.{
  update_managed, remove_noobaa, remove_noobaa_and_stores, remove_olm_components,
  delete_bucket_class, delete_backing_store, delete_namespace_store, delete_noobaa,
  await_bucket_classes, bucket_classes_gone, delete_found,
}
use mcg_osd_deployer.Safety.Within.{
  Extends, Within, Keeps-update, Keeps-modify, Keeps-poll, within_rules,
}

-- What `removeNoobaa` asks for.
abbrev pub IsRemoval : Request → Type 0
IsRemoval (delete_request bucket_class o) = Unit
IsRemoval (delete_request noobaa o) = Unit
IsRemoval (delete_request backing_store o) = Unit
IsRemoval (delete_request namespace_store o) = Unit
IsRemoval (update_request noobaa o) = Unit
IsRemoval _ = ⊥

module _ (P : Platform) (L : IsLawful P) (A : Request → Type 0) (base : List Request) where
  abbrev I : Reconciler × P.State → Type 0
  I = Within P L A base

  pub update_managed-Keeps :
      (r : Reconciler) (s : P.State)
      → A (update_request managed_mcg r.managed)
      → I (r, s)
      → I (update_managed P (r, s)).1
  unfolding update_managed ◌>>=◌
  update_managed-Keeps r s a h =
      (Keeps-bind (update P managed_mcg r.managed) _
          (Keeps-update P L A base managed_mcg r.managed a) (λ m. Keeps-modify P L A base _)).at
        (r, s) h

module _ (P : Platform) (L : IsLawful P) (A : Request → Type 0) (base : List Request) where
  classes-Keeps :
      (n : String) → Keeps (λ s. Extends A base (L.log s)) (P.list bucket_class (some n))
  classes-Keeps n = record { at = λ s h. rw (L.log-list bucket_class (some n) s) h }

  pub gone-Keeps : (n : String) → Keeps (λ s. Extends A base (L.log s)) (bucket_classes_gone P n)
  unfolding bucket_classes_gone
  gone-Keeps n = Keeps-bind _ _ (Keeps-wrapping _ _ (classes-Keeps n)) (λ items. Keeps-pure _)

module _ (P : Platform) (L : IsLawful P) (A : Request → Type 0) (base : List Request)
    (removal : (q : Request) → IsRemoval q → A q) where
  bucket_class-Keeps :
      (o : Resource bucket_class) → Keeps (Within P L A base) (delete_bucket_class P o)
  unfolding delete_bucket_class
  bucket_class-Keeps o = search within_rules depth 14

  backing_store-Keeps :
      (o : Resource backing_store) → Keeps (Within P L A base) (delete_backing_store P o)
  unfolding delete_backing_store
  backing_store-Keeps o = search within_rules depth 14

  namespace_store-Keeps :
      (o : Resource namespace_store) → Keeps (Within P L A base) (delete_namespace_store P o)
  unfolding delete_namespace_store
  namespace_store-Keeps o = search within_rules depth 14

  await-Keeps : Keeps (Within P L A base) (await_bucket_classes P)
  unfolding await_bucket_classes
  await-Keeps = search (within_rules, Keeps-poll, gone-Keeps) depth 14

  delete_noobaa-Keeps : Keeps (Within P L A base) (delete_noobaa P)
  unfolding delete_noobaa
  delete_noobaa-Keeps = search within_rules depth 14

  pub remove_noobaa-Keeps : Keeps (Within P L A base) (remove_noobaa P)
  unfolding remove_noobaa remove_noobaa_and_stores
  remove_noobaa-Keeps =
      search
        (
          within_rules, bucket_class-Keeps, backing_store-Keeps, namespace_store-Keeps, await-Keeps,
          delete_noobaa-Keeps,
        )
        depth 20

module _ (P : Platform) (L : IsLawful P) (A : Request → Type 0) (base : List Request) where
  delete_found-Keeps :
      ((o : Resource cluster_service_version) → A (delete_request cluster_service_version o))
      → (x : Error ⊎ Resource cluster_service_version)
      → Keeps (Within P L A base) (delete_found P x)
  unfolding delete_found
  delete_found-Keeps a (inl e) = search keeps_rules
  delete_found-Keeps a (inr csv) = search within_rules depth 8

  pub remove_olm-Keeps :
      ((o : Resource cluster_service_version) → A (delete_request cluster_service_version o))
      → Keeps (Within P L A base) (remove_olm_components P)
  unfolding remove_olm_components
  remove_olm-Keeps a = search (within_rules, delete_found-Keeps a) depth 8
