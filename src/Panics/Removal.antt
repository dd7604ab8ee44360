-- ===== src/Panics/Removal.antt =====
-- The removal of NooBaa and of the operator: no path panics.
use mcg_osd_deployer.Base.{String, some, ◌⊎◌, inl, inr}
use mcg_osd_deployer.Exec.{Error}
use mcg_osd_deployer.Exec.Calm.{Calm, Calm-bind, Calm-pure, Calm-wrapping, calm_rules}
use mcg_osd_deployer.Cluster.Objects.{
  Resource, bucket_class, backing_store, namespace_store, cluster_service_version,
}
use mcg_osd_deployer.Cluster.Platform.{Platform}
use mcg_osd_deployer.Controller.Uninstall.{
  update_managed, remove_noobaa, remove_noobaa_and_stores, remove_olm_components,
  delete_bucket_class, delete_backing_store, delete_namespace_store, delete_noobaa,
  await_bucket_classes, bucket_classes_gone, delete_found, remove_managed_mcg, add_managed_mcg,
}
use mcg_osd_deployer.Panics.Calls.{Behaves, call_rules, Calm-poll}

module _ (P : Platform) (B : Behaves P) where
  update_managed-Calm : Calm (update_managed P)
  unfolding update_managed
  update_managed-Calm = search call_rules depth 14

  pub remove_managed-Calm : Calm (remove_managed_mcg P)
  unfolding remove_managed_mcg
  remove_managed-Calm = search (call_rules, update_managed-Calm) depth 14

  pub add_managed-Calm : Calm (add_managed_mcg P)
  unfolding add_managed_mcg
  add_managed-Calm = search (call_rules, update_managed-Calm) depth 14

  gone-Calm : (n : String) → Calm (bucket_classes_gone P n)
  unfolding bucket_classes_gone
  gone-Calm n =
      Calm-bind _ _ (Calm-wrapping _ _ (B.listing bucket_class (some n))) (λ items. Calm-pure _)

  bucket_class-Calm : (o : Resource bucket_class) → Calm (delete_bucket_class P o)
  unfolding delete_bucket_class
  bucket_class-Calm o = search call_rules depth 14

  backing_store-Calm : (o : Resource backing_store) → Calm (delete_backing_store P o)
  unfolding delete_backing_store
  backing_store-Calm o = search call_rules depth 14

  namespace_store-Calm : (o : Resource namespace_store) → Calm (delete_namespace_store P o)
  unfolding delete_namespace_store
  namespace_store-Calm o = search call_rules depth 14

  await-Calm : Calm (await_bucket_classes P)
  unfolding await_bucket_classes
  await-Calm = search (call_rules, Calm-poll, gone-Calm) depth 14

  delete_noobaa-Calm : Calm (delete_noobaa P)
  unfolding delete_noobaa
  delete_noobaa-Calm = search call_rules depth 14

  pub remove_noobaa-Calm : Calm (remove_noobaa P)
  unfolding remove_noobaa remove_noobaa_and_stores
  remove_noobaa-Calm =
      search
        (
          call_rules, bucket_class-Calm, backing_store-Calm, namespace_store-Calm, await-Calm,
          delete_noobaa-Calm,
        )
        depth 20

  delete_found-Calm : (x : Error ⊎ Resource cluster_service_version) → Calm (delete_found P x)
  unfolding delete_found
  delete_found-Calm (inl e) = search calm_rules
  delete_found-Calm (inr csv) = search call_rules depth 8

  pub remove_olm-Calm : Calm (remove_olm_components P)
  unfolding remove_olm_components
  remove_olm-Calm = search (call_rules, delete_found-Calm) depth 8
