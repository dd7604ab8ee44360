-- ===== src/Controller/Uninstall.antt =====
-- The finalizer of the ManagedMCG, and the removal of NooBaa and of the operator itself:
-- `addManagedMCG`, `removeManagedMCG`, `removeNoobaa` and `removeOLMComponents` of
-- controllers/managedmcg_controller.go.
use mcg_osd_deployer.Base.{String, Bool, true, false, some, List, [], ◌∷◌, ◌++◌, ◌⊎◌, inl, inr}
use mcg_osd_deployer.Exec.{Error, Exec, pure, wrapping, ◌>>=◌, ◌>>◌, for_each, caught}
use mcg_osd_deployer.Utils.{remove}
use mcg_osd_deployer.Cluster.Objects.{
  Kind, Resource, managed_mcg, noobaa, bucket_class, backing_store, namespace_store,
  cluster_service_version,
}
use mcg_osd_deployer.Cluster.Platform.{Platform}
use mcg_osd_deployer.Controller.Reconciler.{
  managed_mcg_finalizer, noobaa_finalizer, deployer_csv_prefix,
}
use mcg_osd_deployer.Controller.Calls.{
  M, on_cluster, this, modify, list, update, delete, get_csv_by_prefix,
}

-- `obj.Name = name`
unfoldable pub set_name : {k : Kind} → String → Resource k → Resource k
set_name name o = let m = o.metadata in record o { metadata = record m { name = name } }

unfoldable pub set_finalizers : {k : Kind} → List String → Resource k → Resource k
set_finalizers fs o = let m = o.metadata in record o { metadata = record m { finalizers = fs } }

unfoldable pub is_empty : {A : Type 0} → List A → Bool
is_empty [] = true
is_empty (x ∷ xs) = false

module _ (P : Platform) where
  -- `r.update(r.managedMCG)`, which leaves the server's answer in the field.
  unfoldable pub update_managed : M P (Unit {0})
  unfolding this modify
  update_managed = do
    r ← this P
    m ← update P managed_mcg r.managed
    modify P (λ r. record r { managed = m })

  unfoldable pub remove_managed_mcg : M P (Unit {0})
  unfolding modify set_finalizers
  remove_managed_mcg = do
    modify P (λ r. record r {
      managed =
          set_finalizers (remove r.managed.metadata.finalizers managed_mcg_finalizer) r.managed;
    })
    wrapping "failed to remove ManagedMCG finalizer" update_managed

  unfoldable pub add_managed_mcg : M P (Unit {0})
  unfolding modify set_finalizers
  add_managed_mcg = do
    modify P (λ r. record r {
      managed =
          set_finalizers (r.managed.metadata.finalizers ++ (managed_mcg_finalizer ∷ [])) r.managed;
    })
    wrapping "failed to add ManagedMCG finalizer" update_managed

  -- One round of each of the three loops of `removeNoobaa`.
  unfoldable pub delete_bucket_class : Resource bucket_class → M P (Unit {0})
  unfolding modify this set_name
  delete_bucket_class item = do
    modify P
        (λ r. record r { noobaa_bucket_class = set_name item.metadata.name r.noobaa_bucket_class })
    r ← this P
    wrapping "failed to delete bucketClasses" (delete P bucket_class r.noobaa_bucket_class)

  unfoldable pub delete_backing_store : Resource backing_store → M P (Unit {0})
  unfolding modify this set_name
  delete_backing_store item = do
    modify P (λ r. record r { the_backing_store = set_name item.metadata.name r.the_backing_store })
    r ← this P
    wrapping "failed to delete backingStores" (delete P backing_store r.the_backing_store)

  unfoldable pub delete_namespace_store : Resource namespace_store → M P (Unit {0})
  unfolding modify this set_name
  delete_namespace_store item = do
    modify P
        (λ r. record r { the_namespace_store = set_name item.metadata.name r.the_namespace_store })
    r ← this P
    wrapping "failed to delete namespaceStores" (delete P namespace_store r.the_namespace_store)

  -- The condition of the poll: the namespace has no bucket class left.
  unfoldable pub bucket_classes_gone : String → Exec P.State Bool
  unfolding is_empty
  bucket_classes_gone namespace = do
    items ← wrapping "error listing" (P.list bucket_class (some namespace))
    pure (is_empty items)

  unfoldable pub await_bucket_classes : M P (Unit {0})
  unfolding this on_cluster
  await_bucket_classes = do
    r ← this P
    wrapping "failed to get BucketClassList"
        (on_cluster P (P.poll_immediate 2 10 (bucket_classes_gone r.namespace)))

  -- Takes NooBaa's own finalizer off the resource and deletes it.
  unfoldable pub delete_noobaa : M P (Unit {0})
  unfolding this modify on_cluster set_finalizers
  delete_noobaa = do
    modify P (λ r. record r {
      the_noobaa =
          set_finalizers (remove r.the_noobaa.metadata.finalizers noobaa_finalizer) r.the_noobaa;
    })
    r ← this P
    n ← wrapping "failed to remove Noobaa finalizer" (on_cluster P (P.update noobaa r.the_noobaa))
    modify P (λ r. record r { the_noobaa = n })
    wrapping "failed to delete Noobaa CR" (delete P noobaa n)

  -- What `removeNoobaa` does after the wait.
  unfoldable pub remove_noobaa_and_stores : M P (Unit {0})
  remove_noobaa_and_stores = do
    delete_noobaa
    backing_stores ← wrapping "failed to get the backingStores" (list P backing_store)
    for_each delete_backing_store backing_stores
    namespace_stores ← wrapping "failed to get the namespaceStores" (list P namespace_store)
    for_each delete_namespace_store namespace_stores

  unfoldable pub remove_noobaa : M P (Unit {0})
  unfolding remove_noobaa_and_stores
  remove_noobaa = do
    classes ← wrapping "failed to get the bucketClasses" (list P bucket_class)
    for_each delete_bucket_class classes
    await_bucket_classes
    remove_noobaa_and_stores

  -- A CSV that cannot be fetched is passed over: the error that is returned is the outer one, which
  -- nothing has set.
  unfoldable pub delete_found : Error ⊎ Resource cluster_service_version → M P (Unit {0})
  delete_found (inl e) = pure tt
  delete_found (inr csv) = wrapping "failed to delete CSV" (delete P cluster_service_version csv)

  unfoldable pub remove_olm_components : M P (Unit {0})
  unfolding delete_found
  remove_olm_components = do
    csv ← caught (get_csv_by_prefix P deployer_csv_prefix)
    delete_found csv
