-- ===== src/Safety/Deletion.antt =====
-- Nothing is deleted unless it was asked for.
use mcg_osd_deployer.Base.{◌≡◌, ap, true, false, List, Bool-cases, inl, inr, ◌==◌}
use mcg_osd_deployer.Exec.{ok, pure}
use mcg_osd_deployer.Cluster.Platform.{
  Platform, IsLawful, Request, create_request, update_request, delete_request, status_request,
}
use mcg_osd_deployer.Controller.Reconciler.{Reconciler}
use mcg_osd_deployer.Controller.Status.{update_component_status}
use mcg_osd_deployer.Controller.Phases.{
  verify_addon_deletion_key, dispatch, reconcile_phases, is_zero_time,
}
use mcg_osd_deployer.Safety.Within.{Extends}
use mcg_osd_deployer.Safety.Kinds.{IsUpkeep}
use mcg_osd_deployer.Safety.Phases.{
  existing-Keeps, dispatch-existing, dispatch-absent, phases-Within,
}

-- Any request but a deletion.
abbrev pub IsNoDelete : Request → Type 0
IsNoDelete (delete_request k o) = ⊥
IsNoDelete _ = Unit

upkeep-IsNoDelete : (q : Request) → IsUpkeep q → IsNoDelete q
upkeep-IsNoDelete (create_request k o) u = tt
upkeep-IsNoDelete (update_request k o) u = tt
upkeep-IsNoDelete (delete_request k o) u = elim u [ ]
upkeep-IsNoDelete (status_request k o) u = elim u [ ]

module _ (P : Platform) (L : IsLawful P) where
  dispatch-IsNoDelete :
      (r : Reconciler) (s : P.State) (base : List Request)
      → is_zero_time r.managed.metadata.deletion_timestamp ≡ true
      → Extends IsNoDelete base (L.log s)
      → Extends IsNoDelete base (L.log (dispatch P false (r, s)).1.1)
  unfolding pure
  dispatch-IsNoDelete r s base z h = elim (Bool-cases (r.managed.metadata.uid == "")) [
    | inl u ↦ rw (dispatch-absent P false r s z u) h
    | inr u ↦ rw (dispatch-existing P false r s z u) (
        (existing-Keeps P L IsNoDelete base upkeep-IsNoDelete (λ o f. tt) false (λ e. cc)).at (r, s)
          h)
  ]

  -- Where the ManagedMCG is not being deleted and the addon's deletion key is not found, the phases
  -- of a reconciliation send no delete request at all, whether they succeed or fail.
  pub no_unasked_deletion :
      (r : Reconciler) (s : P.State)
      → is_zero_time r.managed.metadata.deletion_timestamp ≡ true
      → (verify_addon_deletion_key P (r, s)).0 ≡ ok false
      → Extends IsNoDelete (L.log s) (L.log (reconcile_phases P (r, s)).1.1)
  no_unasked_deletion r s z k = phases-Within P L IsNoDelete r s λ found s₁ e same h.
      let (r₂, s₂) = (update_component_status P (r, s₁)).1 in
      let f : found ≡ false = cc (k, ap (λ x. x.0) e) in
      rw f (dispatch-IsNoDelete r₂ s₂ _ (rw same z) h)
