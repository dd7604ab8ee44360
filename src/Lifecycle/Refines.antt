-- ===== src/Lifecycle/Refines.antt =====
-- `reconcilePhases` sends no request but those that the stage of the ManagedMCG permits.
use mcg_osd_deployer.Base.{
  ◌≡◌, subst, ap, Bool, true, false, List, Bool-cases, inl, inr, ◌==◌, arith, eq_iff,
}
use mcg_osd_deployer.Exec.{ok, when, pure, ◌>>=◌}
use mcg_osd_deployer.Utils.Slices.{contains-remove}
use mcg_osd_deployer.Cluster.Api.{ComponentState, is_component_not_found}
use mcg_osd_deployer.Cluster.Meta.{ObjectMeta}
use mcg_osd_deployer.Cluster.Objects.{Resource, managed_mcg}
use mcg_osd_deployer.Cluster.Platform.{Platform, IsLawful, Request, delete_request}
use mcg_osd_deployer.Controller.Reconciler.{Reconciler, managed_mcg_finalizer}
use mcg_osd_deployer.Controller.Status.{update_component_status}
use mcg_osd_deployer.Controller.Uninstall.{set_finalizers, remove_olm_components}
use mcg_osd_deployer.Controller.Phases.{
  verify_addon_deletion_key, dispatch, reconcile_deletion, reconcile_phases, is_zero_time,
}
use mcg_osd_deployer.Safety.Within.{Extends, more, Within}
use mcg_osd_deployer.Safety.Removal.{remove_noobaa-Keeps}
use mcg_osd_deployer.Safety.Release.{removal_log}
use mcg_osd_deployer.Safety.Phases.{
  existing-Keeps, dispatch-deleting, dispatch-existing, dispatch-absent, phases-Within,
}
use mcg_osd_deployer.Lifecycle.{
  Stage, absent, serving, dismantling, released, stage_of, Permits, maintain, finalize, retire,
  dismantle, release, uninstall,
}
use mcg_osd_deployer.Lifecycle.Uninstall.{remove_olm-Within}

-- The state of NooBaa in the status of the ManagedMCG.
abbrev pub noobaa_state : Reconciler → ComponentState
noobaa_state r = r.managed.body.status.components.noobaa

retire_asked :
    (asked : Bool)
    → asked ≡ true
    → (o : Resource managed_mcg) → Permits serving asked (delete_request managed_mcg o)
retire_asked true e o = retire
retire_asked false e o = cc

module _ (P : Platform) (L : IsLawful P) (base : List Request) where
  -- The requests before were permitted in this stage.
  abbrev Stays : Stage → Bool → Reconciler × P.State → Type 0
  Stays stage asked = Within P L (Permits stage asked) base

  deletion-released :
      (asked : Bool) (r : Reconciler) (s : P.State)
      → is_component_not_found (noobaa_state r) ≡ true
      → Stays released asked (r, s)
      → Stays released asked (reconcile_deletion P (r, s)).1
  unfolding reconcile_deletion ◌>>=◌ set_finalizers
  deletion-released asked r s n h =
      rw (n, removal_log P L r s)
        (more
          (release (
            rw contains-remove
              (ground (arith, eq_iff managed_mcg_finalizer managed_mcg_finalizer))))
          h)

  deletion-dismantling :
      (asked : Bool) (r : Reconciler) (s : P.State)
      → is_component_not_found (noobaa_state r) ≡ false
      → Stays dismantling asked (r, s)
      → Stays dismantling asked (reconcile_deletion P (r, s)).1
  unfolding reconcile_deletion ◌>>=◌
  deletion-dismantling asked r s n h =
      rw n (
        (remove_noobaa-Keeps P L (Permits dismantling asked) base (λ q d. dismantle d)).at (r, s) h)

  absent-Stays :
      (asked : Bool) (r : Reconciler) (s : P.State)
      → Stays absent asked (r, s)
      → Stays absent asked (when asked (remove_olm_components P) (r, s)).1
  unfolding pure
  absent-Stays true r s h =
      remove_olm-Within P L (Permits absent true) base (λ o p. uninstall p) (r, s) h
  absent-Stays false r s h = h

  dispatch-Stays :
      (asked : Bool) (r : Reconciler) (s : P.State)
      → Stays (stage_of r.managed.metadata (noobaa_state r)) asked (r, s)
      → Stays (stage_of r.managed.metadata (noobaa_state r)) asked (dispatch P asked (r, s)).1
  dispatch-Stays asked r s h =
      elim (Bool-cases (is_zero_time r.managed.metadata.deletion_timestamp)) [
        | inr z ↦ elim (Bool-cases (is_component_not_found (noobaa_state r))) [
          | inl n ↦
              rw (dispatch-deleting P asked r s z, z, n)
                (deletion-released asked r s n (rw (z, n) at h))
          | inr n ↦
              rw (dispatch-deleting P asked r s z, z, n)
                (deletion-dismantling asked r s n (rw (z, n) at h))
        ]
        | inl z ↦ elim (Bool-cases (r.managed.metadata.uid == "")) [
          | inl u ↦
              rw (dispatch-absent P asked r s z u, z, u) (absent-Stays asked r s (rw (z, u) at h))
          | inr u ↦
              rw (dispatch-existing P asked r s z u, z, u)
                ((existing-Keeps P L (Permits serving asked) base (λ q k. maintain k)
                    (λ o f. finalize f) asked (retire_asked asked)).at
                  (r, s) (rw (z, u) at h))
        ]
      ]

  -- The same by the metadata that the stage was told from.
  dispatch-Stays_at :
      (asked : Bool) (r : Reconciler) (s : P.State) (m : ObjectMeta)
      → r.managed.metadata ≡ m
      → Stays (stage_of m (noobaa_state r)) asked (r, s)
      → Stays (stage_of m (noobaa_state r)) asked (dispatch P asked (r, s)).1
  dispatch-Stays_at asked r s m e =
      subst
        (λ m.
          Stays (stage_of m (noobaa_state r)) asked (r, s)
          → Stays (stage_of m (noobaa_state r)) asked (dispatch P asked (r, s)).1)
        e (dispatch-Stays asked r s)

-- The phases of a reconciliation send no request but those that the stage of the ManagedMCG permits,
-- by its metadata and by the state of NooBaa that has just been looked up, on every path. Where the
-- deletion of the addon was asked for, that includes the deletion of the ManagedMCG that is served,
-- and of a CSV with the operator's prefix where there is no ManagedMCG.
pub phases_refine :
    (P : Platform) (L : IsLawful P) (r : Reconciler) (s : P.State) (asked : Bool)
    → (verify_addon_deletion_key P (r, s)).0 ≡ ok asked
    → let s₁ = (verify_addon_deletion_key P (r, s)).1.1 in
      let noobaa = noobaa_state (update_component_status P (r, s₁)).1.0 in
      Extends
        (Permits (stage_of r.managed.metadata noobaa) asked)
        (L.log s)
        (L.log (reconcile_phases P (r, s)).1.1)
phases_refine P L r s asked k =
    let s₁ = (verify_addon_deletion_key P (r, s)).1.1 in
    let noobaa = noobaa_state (update_component_status P (r, s₁)).1.0 in
    phases-Within P L (Permits (stage_of r.managed.metadata noobaa) asked) r s λ found s₁ e same h.
      let (r₂, s₂) = (update_component_status P (r, s₁)).1 in
      let f : asked ≡ found = cc (k, ap (λ x. x.0) e) in
      rw (ap (λ x. x.1.1) e, f)
        (dispatch-Stays_at P L (L.log s) found r₂ s₂ _ same (rw (ap (λ x. x.1.1) e, f) at h))
