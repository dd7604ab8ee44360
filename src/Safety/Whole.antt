-- ===== src/Safety/Whole.antt =====
-- The requests of `Reconcile` as a whole, from the request for the ManagedMCG to the status update.
use mcg_osd_deployer.Base.{
  ◌≡◌, subst, String, true, false, Option, none, some, List, Bool-cases, ◌⊎◌, inl, inr,
}
use mcg_osd_deployer.Exec.{Error, ok, pure, raise, caught, caught_outcome, ◌>>=◌}
use mcg_osd_deployer.Exec.Keeps.{Keeps, Keeps-bind, Keeps-continue, keeps_rules}
use mcg_osd_deployer.Cluster.Api.{ReconcileStrategy}
use mcg_osd_deployer.Cluster.Objects.{Resource, managed_mcg}
use mcg_osd_deployer.Cluster.Platform.{Platform, IsLawful, Request, status_request}
use mcg_osd_deployer.Controller.Reconciler.{Config, Reconciler, initialize_reconciler}
use mcg_osd_deployer.Controller.Calls.{on_cluster}
use mcg_osd_deployer.Controller.Phases.{
  verify_addon_deletion_key, reconcile_phases, is_zero_time, write_status, finish, unless_missing,
  reconcile_initialized, reconcile,
}
use mcg_osd_deployer.Safety.Within.{Extends, start, more, Within, within_rules}
use mcg_osd_deployer.Safety.Deletion.{IsNoDelete, no_unasked_deletion}

module _ (P : Platform) (L : IsLawful P) (A : Request → Type 0) (base : List Request)
    (status : (o : Resource managed_mcg) → A (status_request managed_mcg o)) where
  abbrev I : Reconciler × P.State → Type 0
  I = Within P L A base

  update_status-Keeps : (o : Resource managed_mcg) → Keeps I (on_cluster P (P.update_status o))
  unfolding on_cluster
  update_status-Keeps o = record {
    at = λ (r, s) h. rw (L.log-update_status o s) (more (status o) h);
  }

  write_status-Keeps : Keeps I (write_status P)
  unfolding write_status
  write_status-Keeps = search (within_rules, update_status-Keeps) depth 14

  finish-Keeps : (x y : Error ⊎ Unit {0}) → Keeps I (finish P x y)
  unfolding finish
  finish-Keeps (inl e) y = search keeps_rules
  finish-Keeps (inr u) (inl e) = search keeps_rules
  finish-Keeps (inr u) (inr v) = search keeps_rules

  after_phases-Within :
      (r : Reconciler) (s : P.State)
      → I (reconcile_phases P (r, s)).1
      → I
          ((caught (reconcile_phases P) >>= λ result. write_status P >>= λ st. finish P result st)
            (r, s)).1
  unfolding ◌>>=◌ caught
  after_phases-Within r s h =
      (Keeps-continue (caught_outcome (reconcile_phases P (r, s)).0) _ λ result.
          Keeps-bind (write_status P) (λ st. finish P result st) write_status-Keeps
            (λ st. finish-Keeps result st)).at
        _ h

  pub after_get-Within :
      (e : Option Error) (r : Reconciler) (s : P.State)
      → I (r, s)
      → I (reconcile_phases P (r, s)).1
      → I
          ((unless_missing P e >>= λ u.
              caught (reconcile_phases P) >>= λ result. write_status P >>= λ st. finish P result st)
            (r, s)).1
  unfolding unless_missing ◌>>=◌ pure raise
  after_get-Within none r s h k = after_phases-Within r s k
  after_get-Within (some e) r s h k = elim (Bool-cases (P.is_not_found e)) [
    | inl t ↦ rw t (after_phases-Within r s k)
    | inr f ↦ rw f h
  ]

module _ (P : Platform) (L : IsLawful P) where
  initialized-IsNoDelete :
      (r : Reconciler) (s : P.State)
      → let ((e, m), s₁) = P.get managed_mcg r.managed s in
        let r₁ = record r { managed = m } in
        is_zero_time m.metadata.deletion_timestamp ≡ true
        → (verify_addon_deletion_key P (r₁, s₁)).0 ≡ ok false
        → Extends IsNoDelete (L.log s) (L.log (reconcile_initialized P (r, s)).1.1)
  unfolding reconcile_initialized ◌>>=◌
  initialized-IsNoDelete r s z k =
      let ((e, m), s₁) = P.get managed_mcg r.managed s in
      let r₁ : Reconciler = record r { managed = m } in
      let same = L.log-get managed_mcg r.managed s in
      after_get-Within P L IsNoDelete (L.log s) (λ o. tt) _ r₁ s₁ (rw same start)
        (subst (λ b. Extends IsNoDelete b (L.log (reconcile_phases P (r₁, s₁)).1.1)) same
          (no_unasked_deletion P L r₁ s₁ z k))

  -- A whole reconciliation sends no delete request where the ManagedMCG as it is fetched, or the
  -- empty one where there is none, is not being deleted, and the addon's deletion key is not found
  -- then. That holds on every path, failures included.
  pub reconcile_no_deletion :
      (c : Config) (strategy : ReconcileStrategy) (namespace name : String) (s : P.State)
      → let r = initialize_reconciler c strategy namespace name in
        let ((e, m), s₁) = P.get managed_mcg r.managed s in
        is_zero_time m.metadata.deletion_timestamp ≡ true
        → (verify_addon_deletion_key P (record r { managed = m }, s₁)).0 ≡ ok false
        → Extends IsNoDelete (L.log s) (L.log (reconcile P c strategy namespace name s).2)
  unfolding reconcile
  reconcile_no_deletion c strategy namespace name s z k =
      initialized-IsNoDelete (initialize_reconciler c strategy namespace name) s z k
