-- ===== src/Lifecycle/Progress.antt =====
-- A deletion makes progress: a reconciliation takes NooBaa down, and once NooBaa is gone, the next one
-- gives up the finalizer.
use mcg_osd_deployer.Base.{
  ◌≡◌, refl, ◌∙◌, sym, ap, String, Bool, true, false, some, List, [], ◌∷◌, ◌==◌, if◌then◌else◌,
}
use mcg_osd_deployer.Exec.{Error, ok, ◌>>=◌}
use mcg_osd_deployer.Utils.{contains}
use mcg_osd_deployer.Cluster.Api.{is_component_not_found}
use mcg_osd_deployer.Cluster.Objects.{
  Resource, managed_mcg, noobaa, bucket_class, backing_store, namespace_store,
}
use mcg_osd_deployer.Cluster.Platform.{Platform, IsLawful, Request, update_request}
use mcg_osd_deployer.Controller.Reconciler.{Reconciler, managed_mcg_finalizer}
use mcg_osd_deployer.Controller.Status.{update_component_status}
use mcg_osd_deployer.Controller.Status.Table.{update_component_status-noobaa}
use mcg_osd_deployer.Controller.Status.Exact.{noobaa_state_exact}
use mcg_osd_deployer.Controller.Phases.{
  verify_addon_deletion_key, reconcile_phases, is_zero_time, reconcile_deletion,
}
use mcg_osd_deployer.Safety.Within.{Extends, start, more}
use mcg_osd_deployer.Safety.Reads.{verify-Keeps, status-Keeps}
use mcg_osd_deployer.Safety.Phases.{verify_run, phases_run, dispatch-deleting}
use mcg_osd_deployer.Safety.Release.{finalizer_released}
use mcg_osd_deployer.Lifecycle.Refines.{noobaa_state}
use mcg_osd_deployer.Lifecycle.Deletions.{Grants, deletions}
use mcg_osd_deployer.Lifecycle.Dismantling.{dismantled, remove_noobaa_completes}
use mcg_osd_deployer.Controller.Uninstall.{remove_noobaa}

-- No request was added.
unchanged : {base log : List Request} → Extends (λ q. ⊥) base log → log ≡ base
unchanged start = refl
unchanged (more a h) = absurd a

module _ (P : Platform) (L : IsLawful P) where
  status-log :
      (r : Reconciler) (s : P.State) → L.log (update_component_status P (r, s)).1.1 ≡ L.log s
  status-log r s = unchanged ((status-Keeps P L (λ q. ⊥) (L.log s)).at (r, s) start)

  verify-log :
      (r : Reconciler) (s : P.State) → L.log (verify_addon_deletion_key P (r, s)).1.1 ≡ L.log s
  verify-log r s = unchanged ((verify-Keeps P L (λ q. ⊥) (L.log s)).at (r, s) start)

  gone_state :
      (r : Reconciler) (s : P.State) (why : Error)
      → (P.get noobaa r.the_noobaa s).0.0 ≡ some why
      → P.is_not_found why ≡ true
      → is_component_not_found (noobaa_state (update_component_status P (r, s)).1.0) ≡ true
  gone_state r s why e n =
      let gone = (noobaa_state_exact P L r s).1.1 (why, e, n) in
      rw (update_component_status-noobaa P r s, gone) refl

  released_at :
      (r : Reconciler) (s s₁ : P.State) (found : Bool) (why : Error)
      → verify_addon_deletion_key P (r, s) ≡ (ok found, (r, s₁))
      → is_zero_time r.managed.metadata.deletion_timestamp ≡ false
      → (P.get noobaa r.the_noobaa s₁).0.0 ≡ some why
      → P.is_not_found why ≡ true
      → (o : Resource managed_mcg) × (L.log (reconcile_phases P (r, s)).1.1
          ≡ update_request managed_mcg o ∷ L.log s)
        × ((f : String)
            → contains o.metadata.finalizers f ≡ (
                if managed_mcg_finalizer == f
                then false
                else contains r.managed.metadata.finalizers f))
  released_at r s s₁ found why v z e n =
      let (run, same) = phases_run P r s v in
      let (r₂, s₂) = (update_component_status P (r, s₁)).1 in
      let z₂ = rw (← ap (λ m. m.deletion_timestamp) same) at z in
      let (o, log, fs) = finalizer_released P L found r₂ s₂ z₂ (gone_state r s₁ why e n) in
      let before : L.log s₂ ≡ L.log s =
        status-log r s₁ ∙ ap (λ x. L.log x.1.1) (sym v) ∙ verify-log r s in
      (
        o,
        ap (λ x. L.log x.1.1) run ∙ log ∙ ap (◌∷◌ (update_request managed_mcg o)) before,
        λ f.
            fs f
            ∙ ap (λ m. if managed_mcg_finalizer == f then false else contains m.finalizers f) same,
      )

-- Where the ManagedMCG is being deleted, and the API server answers the lookup of NooBaa with
-- not-found, the phases of the reconciliation send exactly one request: an update of the ManagedMCG
-- that takes off the operator's finalizer and no other.
pub finalizer_given_up :
    (P : Platform) (L : IsLawful P) (r : Reconciler) (s : P.State) (why : Error)
    → is_zero_time r.managed.metadata.deletion_timestamp ≡ false
    → (P.get noobaa r.the_noobaa (verify_addon_deletion_key P (r, s)).1.1).0.0 ≡ some why
    → P.is_not_found why ≡ true
    → (o : Resource managed_mcg) × (L.log (reconcile_phases P (r, s)).1.1
        ≡ update_request managed_mcg o ∷ L.log s)
      × ((f : String)
          → contains o.metadata.finalizers f ≡ (
              if managed_mcg_finalizer == f
              then false
              else contains r.managed.metadata.finalizers f))
finalizer_given_up P L r s why z e n =
    let (found, s₁, v) = verify_run P r s in
    released_at P L r s s₁ found why v z
      (ap (λ x. (P.get noobaa r.the_noobaa x.1.1).0.0) (sym v) ∙ e) n

-- The reconciler and the state after the status was brought up to date.
abbrev pub with_status : (P : Platform) → Reconciler → P.State → Reconciler × P.State
with_status P r s = (update_component_status P (r, (verify_addon_deletion_key P (r, s)).1.1)).1

module _ (P : Platform) (L : IsLawful P) where
  with_status-log : (r : Reconciler) (s : P.State) → L.log (with_status P r s).1 ≡ L.log s
  with_status-log r s = status-log P L r _ ∙ verify-log P L r s

  -- The phases are the removal of NooBaa.
  phases_remove :
      (r : Reconciler) (s : P.State)
      → is_zero_time r.managed.metadata.deletion_timestamp ≡ false
      → is_component_not_found (noobaa_state (with_status P r s).0) ≡ false
      → reconcile_phases P (r, s) ≡ remove_noobaa P (with_status P r s)
  unfolding reconcile_deletion ◌>>=◌
  phases_remove r s z n =
      let (found, s₁, v) = verify_run P r s in
      let here : verify_addon_deletion_key P (r, s)
          ≡ (ok found, (r, (verify_addon_deletion_key P (r, s)).1.1)) =
        v ∙ ap (λ x. (ok found, (r, x.1.1))) (sym v) in
      let (run, same) = phases_run P r s here in
      let (r₂, s₂) = with_status P r s in
      let z₂ = rw (← ap (λ m. m.deletion_timestamp) same) at z in
      run ∙ dispatch-deleting P found r₂ s₂ z₂ ∙ rw n refl

module _ (P : Platform) (L : IsLawful P) (G : Grants P) where
  -- Where the ManagedMCG is being deleted and NooBaa is still there, the API server grants every update
  -- and deletion, lists no bucket class once those that it listed at first have been deleted, and lists
  -- the same stores throughout, the phases of the reconciliation end without an error. They send
  -- exactly these requests, in this order: the deletion of each bucket class, the update that takes
  -- NooBaa's finalizer off, the deletion of NooBaa, and the deletion of each backing store and each
  -- namespace store.
  pub deletion_dismantles :
      (r : Reconciler) (s : P.State) (classes : List (Resource bucket_class))
      (backing : List (Resource backing_store)) (namespaces : List (Resource namespace_store))
      → let (r₂, s₂) = with_status P r s in
        is_zero_time r.managed.metadata.deletion_timestamp ≡ false
        → is_component_not_found (noobaa_state r₂) ≡ false
        → (P.list bucket_class (some r₂.namespace) s₂).0 ≡ ok classes
        → ((s' : P.State)
            → L.log s' ≡ deletions classes r₂.noobaa_bucket_class (L.log s)
            → (P.list bucket_class (some r₂.namespace) s').0 ≡ ok [])
        → ((s' : P.State) → (P.list backing_store (some r₂.namespace) s').0 ≡ ok backing)
        → ((s' : P.State) → (P.list namespace_store (some r₂.namespace) s').0 ≡ ok namespaces)
        → (n : Resource noobaa) × ((reconcile_phases P (r, s)).0 ≡ ok tt)
          × (L.log (reconcile_phases P (r, s)).1.1
              ≡ dismantled r₂ backing namespaces n
                  (deletions classes r₂.noobaa_bucket_class (L.log s)))
  deletion_dismantles r s classes backing namespaces z h hc hg hb hn =
      let (r₂, s₂) = with_status P r s in
      let log = with_status-log P L r s in
      let run = phases_remove P L r s z h in
      let (n, e, g) =
        remove_noobaa_completes P L G r₂ s₂ classes backing namespaces hc
          (λ s' q. hg s' (q ∙ ap (deletions classes r₂.noobaa_bucket_class) log)) hb hn in
      (
        n,
        ap (λ x. x.0) run ∙ e,
        ap (λ x. L.log x.1.1) run
            ∙ g
            ∙ ap
                (λ l.
                  dismantled r₂ backing namespaces n (deletions classes r₂.noobaa_bucket_class l))
                log,
      )
