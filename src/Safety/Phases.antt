-- ===== src/Safety/Phases.antt =====
-- The requests of a whole reconciliation: nothing is deleted unless it was asked for, and the
-- operator's finalizer stays on the ManagedMCG until NooBaa is gone.
use mcg_osd_deployer.Base.{
  ◌≡◌, refl, ◌∙◌, subst, String, Bool, true, false, List, [], ◌∷◌, ◌++◌, arith, ◌==◌,
}
use mcg_osd_deployer.Exec.{ok, pure, when, wrapping, ◌>>=◌}
use mcg_osd_deployer.Exec.Runs.{bind-ok}
use mcg_osd_deployer.Exec.Keeps.{Keeps, Keeps-bind}
use mcg_osd_deployer.Utils.{contains}
use mcg_osd_deployer.Utils.Slices.{contains-append, contains_self}
use mcg_osd_deployer.Cluster.Objects.{Resource, managed_mcg}
use mcg_osd_deployer.Cluster.Platform.{Platform, IsLawful, Request, update_request, delete_request}
use mcg_osd_deployer.Controller.Reconciler.{Reconciler, managed_mcg_finalizer}
use mcg_osd_deployer.Controller.Status.{update_component_status}
use mcg_osd_deployer.Controller.Status.Table.{update_component_status_decides}
use mcg_osd_deployer.Controller.Uninstall.{add_managed_mcg, remove_olm_components, set_finalizers}
use mcg_osd_deployer.Controller.Phases.{
  verify_addon_deletion_key, reconcile_existing, reconcile_deletion, start_deletion, dispatch,
  reconcile_phases, is_zero_time,
}
use mcg_osd_deployer.Safety.Within.{start, Within, within_rules}
use mcg_osd_deployer.Safety.Kinds.{IsUpkeep}
use mcg_osd_deployer.Safety.Upkeep.{reconcile_resources-Keeps}
use mcg_osd_deployer.Safety.Reads.{verify-Keeps, status-Keeps, addon_params-Keeps}
use mcg_osd_deployer.Safety.Removal.{update_managed-Keeps}

-- An update of a ManagedMCG carries the operator's finalizer.
abbrev pub IsFinalized : Resource managed_mcg → Type 0
IsFinalized o = contains o.metadata.finalizers managed_mcg_finalizer ≡ true

contains-appended :
    (fs : List String) → contains (fs ++ (managed_mcg_finalizer ∷ [])) managed_mcg_finalizer ≡ true
contains-appended fs = rw (contains-append, contains_self) (ground arith)

module _ (P : Platform) (L : IsLawful P) (A : Request → Type 0) (base : List Request)
    (upkeep : (q : Request) → IsUpkeep q → A q)
    (finalized : (o : Resource managed_mcg)
      → IsFinalized o
      → A (update_request managed_mcg o)) where
  abbrev I : Reconciler × P.State → Type 0
  I = Within P L A base

  add_managed-Keeps : Keeps I (add_managed_mcg P)
  unfolding add_managed_mcg ◌>>=◌ wrapping set_finalizers
  add_managed-Keeps = record {
    at = λ (r, s) h.
        update_managed-Keeps P L A base _ s
          (finalized _ (contains-appended r.managed.metadata.finalizers)) h;
  }

  start_deletion-Keeps :
      (found : Bool)
      → (found ≡ true → (o : Resource managed_mcg) → A (delete_request managed_mcg o))
      → Keeps I (start_deletion P found)
  unfolding start_deletion
  start_deletion-Keeps true a = let h = a refl in search (within_rules, h) depth 8
  start_deletion-Keeps false a = search within_rules depth 8

  pub existing-Keeps :
      (found : Bool)
      → (found ≡ true → (o : Resource managed_mcg) → A (delete_request managed_mcg o))
      → Keeps I (reconcile_existing P found)
  unfolding reconcile_existing
  existing-Keeps found a = Keeps-bind _ _ (search within_rules) λ r.
      Keeps-bind _ _ (search (within_rules, add_managed-Keeps)) λ u.
        Keeps-bind _ _ (search within_rules) λ u.
          Keeps-bind _ _ (addon_params-Keeps P L A base) λ u.
            Keeps-bind _ _ (reconcile_resources-Keeps P L A base upkeep)
              λ u. Keeps-bind _ _ (search within_rules) λ u. start_deletion-Keeps found a

module _ (P : Platform) where
  pub dispatch-deleting :
      (found : Bool) (r : Reconciler) (s : P.State)
      → is_zero_time r.managed.metadata.deletion_timestamp ≡ false
      → dispatch P found (r, s) ≡ reconcile_deletion P (r, s)
  unfolding dispatch ◌>>=◌
  dispatch-deleting found r s h = rw h

  pub dispatch-existing :
      (found : Bool) (r : Reconciler) (s : P.State)
      → is_zero_time r.managed.metadata.deletion_timestamp ≡ true
      → (r.managed.metadata.uid == "") ≡ false
      → dispatch P found (r, s) ≡ reconcile_existing P found (r, s)
  unfolding dispatch ◌>>=◌
  dispatch-existing found r s h u = rw (h, u)

  pub dispatch-absent :
      (found : Bool) (r : Reconciler) (s : P.State)
      → is_zero_time r.managed.metadata.deletion_timestamp ≡ true
      → (r.managed.metadata.uid == "") ≡ true
      → dispatch P found (r, s) ≡ when found (remove_olm_components P) (r, s)
  unfolding dispatch ◌>>=◌
  dispatch-absent found r s h u = rw (h, u)

  pub verify_run :
      (r : Reconciler) (s : P.State)
      → (found : Bool) × (s₁ : P.State) × (verify_addon_deletion_key P (r, s) ≡ (ok found, (r, s₁)))
  unfolding verify_addon_deletion_key ◌>>=◌ pure
  verify_run r s = (_, _, refl)

  -- The phases after the deletion key was looked up: the status, and the `switch`.
  pub phases_run :
      (r : Reconciler) (s : P.State) {found : Bool} {s₁ : P.State}
      → verify_addon_deletion_key P (r, s) ≡ (ok found, (r, s₁))
      → let (r₂, s₂) = (update_component_status P (r, s₁)).1 in
        (reconcile_phases P (r, s) ≡ dispatch P found (r₂, s₂))
        × (r₂.managed.metadata ≡ r.managed.metadata)
  unfolding reconcile_phases
  phases_run r s {s₁} e =
      let d = update_component_status_decides P r s₁ in
      (
        bind-ok (verify_addon_deletion_key P) _ e
            ∙ bind-ok (update_component_status P) _ {s = (r, s₁)}
                (λ i. (d.0 i, (update_component_status P (r, s₁)).1)),
        d.1,
      )

-- What the `switch` keeps, the phases keep: what comes before it only reads.
pub phases-Within :
    (P : Platform) (L : IsLawful P) (A : Request → Type 0) (r : Reconciler) (s : P.State)
    → ((found : Bool) (s₁ : P.State)
        → verify_addon_deletion_key P (r, s) ≡ (ok found, (r, s₁))
        → let w₂ = (update_component_status P (r, s₁)).1 in
          w₂.0.managed.metadata ≡ r.managed.metadata
          → Within P L A (L.log s) w₂
          → Within P L A (L.log s) (dispatch P found w₂).1)
    → Within P L A (L.log s) (reconcile_phases P (r, s)).1
phases-Within P L A r s k =
    let (found, s₁, e) = verify_run P r s in
    let (run, same) = phases_run P r s e in
    let h = (verify-Keeps P L A (L.log s)).at (r, s) start in
    let h₁ : Within P L A (L.log s) (r, s₁) = subst (λ x. Within P L A (L.log s) x.1) e h in
    rw run (k found s₁ e same ((status-Keeps P L A (L.log s)).at (r, s₁) h₁))
