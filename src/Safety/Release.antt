-- ===== src/Safety/Release.antt =====
-- The end of a deletion: the update that takes off the finalizer.
use mcg_osd_deployer.Base.{◌≡◌, String, Bool, true, false, ◌∷◌, ◌==◌, if◌then◌else◌}
use mcg_osd_deployer.Exec.{wrapping, ◌>>=◌}
use mcg_osd_deployer.Exec.Runs.{bind_split}
use mcg_osd_deployer.Utils.{contains, remove}
use mcg_osd_deployer.Utils.Slices.{contains-remove}
use mcg_osd_deployer.Cluster.Api.{is_component_not_found}
use mcg_osd_deployer.Cluster.Objects.{Resource, managed_mcg}
use mcg_osd_deployer.Cluster.Platform.{Platform, IsLawful, update_request}
use mcg_osd_deployer.Controller.Reconciler.{Reconciler, managed_mcg_finalizer}
use mcg_osd_deployer.Controller.Calls.{update}
use mcg_osd_deployer.Controller.Uninstall.{remove_managed_mcg, update_managed, set_finalizers}
use mcg_osd_deployer.Controller.Phases.{dispatch, reconcile_deletion, is_zero_time}
use mcg_osd_deployer.Safety.Phases.{dispatch-deleting}

module _ (P : Platform) (L : IsLawful P) where
  pub removal_log :
      (r : Reconciler) (s : P.State)
      → L.log (remove_managed_mcg P (r, s)).1.1
        ≡ update_request managed_mcg
            (set_finalizers (remove r.managed.metadata.finalizers managed_mcg_finalizer) r.managed)
          ∷ L.log s
  unfolding remove_managed_mcg update_managed ◌>>=◌ wrapping update set_finalizers
  removal_log r s =
      let o =
        set_finalizers (remove r.managed.metadata.finalizers managed_mcg_finalizer) r.managed in
      let Q : Reconciler × P.State → Type 0 =
        λ w. L.log w.1 ≡ update_request managed_mcg o ∷ L.log s in
      bind_split Q (update P managed_mcg o) _ (_, s) (λ m e. L.log-update managed_mcg o s)
        (L.log-update managed_mcg o s)

-- The branch of the deletion that takes off the finalizer, without the update of the status before it
-- and the write of the status after it.
pub finalizer_released :
    (P : Platform) (L : IsLawful P) (found : Bool) (r : Reconciler) (s : P.State)
    → is_zero_time r.managed.metadata.deletion_timestamp ≡ false
    → is_component_not_found r.managed.body.status.components.noobaa ≡ true
    → (o : Resource managed_mcg) × (L.log (dispatch P found (r, s)).1.1
        ≡ update_request managed_mcg o ∷ L.log s)
      × ((f : String)
          → contains o.metadata.finalizers f ≡ (
              if managed_mcg_finalizer == f
              then false
              else contains r.managed.metadata.finalizers f))
unfolding set_finalizers reconcile_deletion ◌>>=◌
finalizer_released P L found r s z n = (
  set_finalizers (remove r.managed.metadata.finalizers managed_mcg_finalizer) r.managed,
  rw (dispatch-deleting P found r s z, n) (removal_log P L r s),
  λ f. contains-remove r.managed.metadata.finalizers managed_mcg_finalizer f,
)
