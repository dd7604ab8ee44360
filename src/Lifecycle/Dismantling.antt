-- ===== src/Lifecycle/Dismantling.antt =====
-- `removeNoobaa` gets to its end where the API server grants its requests, and what it asks for then.
use mcg_osd_deployer.Base.{◌≡◌, refl, ◌∙◌, ap, String, true, some, List, [], ◌∷◌}
use mcg_osd_deployer.Exec.{ok, pure, wrapping, for_each, ◌>>=◌}
use mcg_osd_deployer.Exec.Runs.{bind-ok}
use mcg_osd_deployer.Utils.{remove}
use mcg_osd_deployer.Cluster.Objects.{
  Kind, Resource, noobaa, bucket_class, backing_store, namespace_store,
}
use mcg_osd_deployer.Cluster.Platform.{Platform, IsLawful, Request, update_request, delete_request}
use mcg_osd_deployer.Controller.Reconciler.{Reconciler, noobaa_finalizer}
use mcg_osd_deployer.Controller.Calls.{this, on_cluster, list, delete}
use mcg_osd_deployer.Lifecycle.Deletions.{Grants, deletions, deletions_run}
use mcg_osd_deployer.Controller.Uninstall.{
  set_name, set_finalizers, is_empty, delete_bucket_class, delete_backing_store,
  delete_namespace_store, bucket_classes_gone, await_bucket_classes, delete_noobaa,
  remove_noobaa_and_stores, remove_noobaa,
}

-- NooBaa without its own finalizer, as it is sent to the API server before it is deleted.
abbrev pub unguarded : Reconciler → Resource noobaa
unguarded r = set_finalizers (remove r.the_noobaa.metadata.finalizers noobaa_finalizer) r.the_noobaa

-- What is asked for after the wait.
abbrev pub dismantled :
    Reconciler
    → List (Resource backing_store)
    → List (Resource namespace_store)
    → Resource noobaa
    → List Request
    → List Request
dismantled r backing namespaces n log = deletions namespaces r.the_namespace_store (
    deletions backing r.the_backing_store
      (delete_request noobaa n ∷ update_request noobaa (unguarded r) ∷ log))

module _ (P : Platform) (L : IsLawful P) (G : Grants P) where
  delete_run :
      (k : Kind) (o : Resource k) (r : Reconciler) (s : P.State)
      → delete P k o (r, s) ≡ (ok tt, (r, (P.delete k o s).1))
  unfolding delete
  delete_run k o r s = rw (G.deleted k o s) refl

  classes_run :
      (items : List (Resource bucket_class)) (r : Reconciler) (s : P.State)
      → (o : Resource bucket_class) × (s' : P.State) × (for_each
            (delete_bucket_class P)
            items
            (r, s)
          ≡ (ok tt, (record r { noobaa_bucket_class = o }, s')))
        × (L.log s' ≡ deletions items r.noobaa_bucket_class (L.log s))
  unfolding delete_bucket_class ◌>>=◌ wrapping set_name
  classes_run =
      deletions_run P L bucket_class (λ r. r.noobaa_bucket_class)
        (λ o r. record r { noobaa_bucket_class = o }) (delete_bucket_class P) (λ o r. refl)
        (λ r. refl) (λ o o' r. refl) (λ item r s. rw (delete_run bucket_class) refl)

  backing_run :
      (items : List (Resource backing_store)) (r : Reconciler) (s : P.State)
      → (o : Resource backing_store) × (s' : P.State) × (for_each
            (delete_backing_store P)
            items
            (r, s)
          ≡ (ok tt, (record r { the_backing_store = o }, s')))
        × (L.log s' ≡ deletions items r.the_backing_store (L.log s))
  unfolding delete_backing_store ◌>>=◌ wrapping set_name
  backing_run =
      deletions_run P L backing_store (λ r. r.the_backing_store)
        (λ o r. record r { the_backing_store = o }) (delete_backing_store P) (λ o r. refl)
        (λ r. refl) (λ o o' r. refl) (λ item r s. rw (delete_run backing_store) refl)

  namespace_run :
      (items : List (Resource namespace_store)) (r : Reconciler) (s : P.State)
      → (o : Resource namespace_store) × (s' : P.State) × (for_each
            (delete_namespace_store P)
            items
            (r, s)
          ≡ (ok tt, (record r { the_namespace_store = o }, s')))
        × (L.log s' ≡ deletions items r.the_namespace_store (L.log s))
  unfolding delete_namespace_store ◌>>=◌ wrapping set_name
  namespace_run =
      deletions_run P L namespace_store (λ r. r.the_namespace_store)
        (λ o r. record r { the_namespace_store = o }) (delete_namespace_store P) (λ o r. refl)
        (λ r. refl) (λ o o' r. refl) (λ item r s. rw (delete_run namespace_store) refl)

  list_run :
      (k : Kind) (why : String) (r : Reconciler) (s : P.State) (items : List (Resource k))
      → (P.list k (some r.namespace) s).0 ≡ ok items
      → wrapping why (list P k) (r, s) ≡ (ok items, (r, (P.list k (some r.namespace) s).1))
  unfolding wrapping list on_cluster
  list_run k why r s items e = rw e refl

  gone_run :
      (namespace : String) (s : P.State)
      → (P.list bucket_class (some namespace) s).0 ≡ ok []
      → bucket_classes_gone P namespace s ≡ (ok true, (P.list bucket_class (some namespace) s).1)
  unfolding bucket_classes_gone wrapping ◌>>=◌ is_empty pure
  gone_run namespace s e = rw e refl

  await_run :
      (r : Reconciler) (s : P.State)
      → (P.list bucket_class (some r.namespace) s).0 ≡ ok []
      → await_bucket_classes P (r, s) ≡ (ok tt, (r, (P.list bucket_class (some r.namespace) s).1))
  unfolding await_bucket_classes ◌>>=◌ wrapping this on_cluster
  await_run r s e = rw (L.poll_immediate-now 2 10 _ s _ (gone_run r.namespace s e)) refl

  noobaa_run :
      (r : Reconciler) (s : P.State)
      → (n : Resource noobaa) × (s' : P.State) × (delete_noobaa P (r, s)
          ≡ (ok tt, (record r { the_noobaa = n }, s')))
        × (L.log s' ≡ delete_request noobaa n ∷ (update_request noobaa (unguarded r) ∷ L.log s))
  unfolding delete_noobaa ◌>>=◌ wrapping on_cluster set_finalizers
  noobaa_run r s =
      let (n, e) = G.updated noobaa (unguarded r) s in
      let s₁ = (P.update noobaa (unguarded r) s).1 in
      (
        n,
        (P.delete noobaa n s₁).1,
        rw (e, delete_run noobaa) refl,
        L.log-delete noobaa n s₁
            ∙ ap (◌∷◌ (delete_request noobaa n)) (L.log-update noobaa (unguarded r) s),
      )

  stores_run :
      (r : Reconciler) (s : P.State) (backing : List (Resource backing_store))
      (namespaces : List (Resource namespace_store))
      → ((s' : P.State) → (P.list backing_store (some r.namespace) s').0 ≡ ok backing)
      → ((s' : P.State) → (P.list namespace_store (some r.namespace) s').0 ≡ ok namespaces)
      → (n : Resource noobaa) × (r' : Reconciler) × (s' : P.State) × (remove_noobaa_and_stores P
            (r, s)
          ≡ (ok tt, (r', s')))
        × (L.log s' ≡ dismantled r backing namespaces n (L.log s))
  unfolding remove_noobaa_and_stores
  stores_run r s backing namespaces hb hn =
      let (n, s₁, e₁, g₁) = noobaa_run r s in
      let r₁ : Reconciler = record r { the_noobaa = n } in
      let l₂ = list_run backing_store "failed to get the backingStores" r₁ s₁ backing (hb s₁) in
      let s₂ = (P.list backing_store (some r.namespace) s₁).1 in
      let (b, s₃, e₃, g₃) = backing_run backing r₁ s₂ in
      let r₃ : Reconciler = record r₁ { the_backing_store = b } in
      let l₄ =
        list_run namespace_store "failed to get the namespaceStores" r₃ s₃ namespaces (hn s₃) in
      let s₄ = (P.list namespace_store (some r.namespace) s₃).1 in
      let (m, s₅, e₅, g₅) = namespace_run namespaces r₃ s₄ in
      (
        n,
        record r₃ { the_namespace_store = m },
        s₅,
        bind-ok (delete_noobaa P) _ e₁
            ∙ bind-ok _ _ l₂
            ∙ bind-ok (for_each (delete_backing_store P) backing) _ e₃
            ∙ bind-ok _ _ l₄
            ∙ e₅,
        rw (g₅, L.log-list, g₃, L.log-list, g₁) refl,
      )

-- Where the API server grants every update and deletion, lists no bucket class once those that it
-- listed at first have been deleted, and lists the same stores throughout, `removeNoobaa` gets to its
-- end without an error. It asks for exactly these requests, in this order: the deletion of each bucket
-- class, the update that takes NooBaa's finalizer off, the deletion of NooBaa, and the deletion of
-- each backing store and each namespace store.
pub remove_noobaa_completes :
    (P : Platform) (L : IsLawful P) (G : Grants P) (r : Reconciler) (s : P.State)
    (classes : List (Resource bucket_class)) (backing : List (Resource backing_store))
    (namespaces : List (Resource namespace_store))
    → (P.list bucket_class (some r.namespace) s).0 ≡ ok classes
    → ((s' : P.State)
        → L.log s' ≡ deletions classes r.noobaa_bucket_class (L.log s)
        → (P.list bucket_class (some r.namespace) s').0 ≡ ok [])
    → ((s' : P.State) → (P.list backing_store (some r.namespace) s').0 ≡ ok backing)
    → ((s' : P.State) → (P.list namespace_store (some r.namespace) s').0 ≡ ok namespaces)
    → (n : Resource noobaa) × ((remove_noobaa P (r, s)).0 ≡ ok tt)
      × (L.log (remove_noobaa P (r, s)).1.1
          ≡ dismantled r backing namespaces n (deletions classes r.noobaa_bucket_class (L.log s)))
unfolding remove_noobaa
remove_noobaa_completes P L G r s classes backing namespaces hc hg hb hn =
    let l₁ = list_run P L G bucket_class "failed to get the bucketClasses" r s classes hc in
    let s₁ = (P.list bucket_class (some r.namespace) s).1 in
    let (o, s₂, e₂, g₂) = classes_run P L G classes r s₁ in
    let r₂ : Reconciler = record r { noobaa_bucket_class = o } in
    let g : L.log s₂ ≡ deletions classes r.noobaa_bucket_class (L.log s) =
      g₂
      ∙ ap (deletions classes r.noobaa_bucket_class)
          (L.log-list bucket_class (some r.namespace) s) in
    let e₃ = await_run P L G r₂ s₂ (hg s₂ g) in
    let s₃ = (P.list bucket_class (some r.namespace) s₂).1 in
    let (n, r₄, s₄, e₄, g₄) = stores_run P L G r₂ s₃ backing namespaces hb hn in
    let run : remove_noobaa P (r, s) ≡ (ok tt, (r₄, s₄)) =
      bind-ok _ _ l₁
      ∙ bind-ok (for_each (delete_bucket_class P) classes) _ e₂
      ∙ bind-ok (await_bucket_classes P) _ e₃
      ∙ e₄ in
    (
      n,
      ap (λ x. x.0) run,
      ap (λ x. L.log x.1.1) run
          ∙ g₄
          ∙ ap (dismantled r backing namespaces n)
              (L.log-list bucket_class (some r.namespace) s₂ ∙ g),
    )
