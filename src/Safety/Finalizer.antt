-- ===== src/Safety/Finalizer.antt =====
-- The operator's finalizer stays on the ManagedMCG until NooBaa is gone.
use mcg_osd_deployer.Base.{◌≡◌, ap, Bool, true, false, List, Bool-cases, inl, inr, ◌==◌}
use mcg_osd_deployer.Exec.{pure, when, ◌>>=◌}
use mcg_osd_deployer.Cluster.Api.{is_component_not_found}
use mcg_osd_deployer.Cluster.Objects.{managed_mcg}
use mcg_osd_deployer.Cluster.Platform.{
  Platform, IsLawful, Request, create_request, update_request, delete_request, status_request,
}
use mcg_osd_deployer.Controller.Reconciler.{Reconciler}
use mcg_osd_deployer.Controller.Status.{update_component_status}
use mcg_osd_deployer.Controller.Uninstall.{remove_olm_components}
use mcg_osd_deployer.Controller.Phases.{
  verify_addon_deletion_key, dispatch, reconcile_deletion, reconcile_phases, is_zero_time,
}
use mcg_osd_deployer.Safety.Within.{Extends}
use mcg_osd_deployer.Safety.Kinds.{IsUpkeep}
use mcg_osd_deployer.Safety.Removal.{IsRemoval, remove_noobaa-Keeps, remove_olm-Keeps}
use mcg_osd_deployer.Safety.Phases.{
  IsFinalized, existing-Keeps, dispatch-deleting, dispatch-existing, dispatch-absent, phases-Within,
}

-- Any request but an update of a ManagedMCG that lacks the operator's finalizer.
abbrev pub IsGuarded : Request → Type 0
IsGuarded (update_request managed_mcg o) = IsFinalized o
IsGuarded _ = Unit

upkeep-IsGuarded : (q : Request) → IsUpkeep q → IsGuarded q
upkeep-IsGuarded (create_request k o) u = tt
upkeep-IsGuarded (update_request managed_mcg o) u = elim u [ ]
upkeep-IsGuarded (update_request _ o) u = tt
upkeep-IsGuarded (delete_request k o) u = tt
upkeep-IsGuarded (status_request k o) u = tt

removal-IsGuarded : (q : Request) → IsRemoval q → IsGuarded q
removal-IsGuarded (create_request k o) u = tt
removal-IsGuarded (update_request managed_mcg o) u = elim u [ ]
removal-IsGuarded (update_request _ o) u = tt
removal-IsGuarded (delete_request k o) u = tt
removal-IsGuarded (status_request k o) u = tt

module _ (P : Platform) (L : IsLawful P) where
  deletion-IsGuarded :
      (r : Reconciler) (s : P.State) (base : List Request)
      → is_component_not_found r.managed.body.status.components.noobaa ≡ false
      → Extends IsGuarded base (L.log s)
      → Extends IsGuarded base (L.log (reconcile_deletion P (r, s)).1.1)
  unfolding reconcile_deletion ◌>>=◌
  deletion-IsGuarded r s base n h =
      rw n ((remove_noobaa-Keeps P L IsGuarded base removal-IsGuarded).at (r, s) h)

  absent-IsGuarded :
      (found : Bool) (r : Reconciler) (s : P.State) (base : List Request)
      → Extends IsGuarded base (L.log s)
      → Extends IsGuarded base (L.log (when found (remove_olm_components P) (r, s)).1.1)
  unfolding pure
  absent-IsGuarded true r s base h = (remove_olm-Keeps P L IsGuarded base (λ o. tt)).at (r, s) h
  absent-IsGuarded false r s base h = h

  dispatch-IsGuarded :
      (found : Bool) (r : Reconciler) (s : P.State) (base : List Request)
      → is_component_not_found r.managed.body.status.components.noobaa ≡ false
      → Extends IsGuarded base (L.log s)
      → Extends IsGuarded base (L.log (dispatch P found (r, s)).1.1)
  dispatch-IsGuarded found r s base n h =
      elim (Bool-cases (is_zero_time r.managed.metadata.deletion_timestamp)) [
        | inr z ↦ rw (dispatch-deleting P found r s z) (deletion-IsGuarded r s base n h)
        | inl z ↦ elim (Bool-cases (r.managed.metadata.uid == "")) [
          | inl u ↦ rw (dispatch-absent P found r s z u) (absent-IsGuarded found r s base h)
          | inr u ↦ rw (dispatch-existing P found r s z u) (
              (existing-Keeps P L IsGuarded base upkeep-IsGuarded (λ o f. f) found (λ e o. tt)).at
                (r, s) h)
        ]
      ]

  -- Where NooBaa was not called `NotFound` when its status was looked up, every update of a
  -- ManagedMCG that the phases of a reconciliation send carries the operator's finalizer.
  pub finalizer_kept :
      (r : Reconciler) (s : P.State)
      → let s₁ = (verify_addon_deletion_key P (r, s)).1.1 in
        let r₂ = (update_component_status P (r, s₁)).1.0 in
        is_component_not_found r₂.managed.body.status.components.noobaa ≡ false
        → Extends IsGuarded (L.log s) (L.log (reconcile_phases P (r, s)).1.1)
  finalizer_kept r s n = phases-Within P L IsGuarded r s λ found s₁ e same h.
      let (r₂, s₂) = (update_component_status P (r, s₁)).1 in
      dispatch-IsGuarded found r₂ s₂ _ (rw (ap (λ x. x.1.1) e) at n) h
