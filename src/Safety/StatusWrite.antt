-- ===== src/Safety/StatusWrite.antt =====
-- The status update at the end of `Reconcile`.
use mcg_osd_deployer.Base.{◌≡◌, refl, false, Option, none, some, ◌∷◌, ◌⊎◌, inl, inr, ◌==◌}
use mcg_osd_deployer.Exec.{Error, wrapf, ok, err, pure, raise, caught, ◌>>=◌}
use mcg_osd_deployer.Exec.Runs.{bind_split, bind-ok}
use mcg_osd_deployer.Cluster.Objects.{managed_mcg}
use mcg_osd_deployer.Cluster.Platform.{Platform, IsLawful, status_request}
use mcg_osd_deployer.Controller.Reconciler.{Reconciler}
use mcg_osd_deployer.Controller.Calls.{on_cluster}
use mcg_osd_deployer.Controller.Phases.{
  reconcile_phases, write_status, finish, unless_missing, reconcile_initialized,
}

module _ (P : Platform) (L : IsLawful P) where
  write_status-log :
      (r : Reconciler) (s : P.State)
      → (r.managed.metadata.uid == "") ≡ false
      → L.log (write_status P (r, s)).1.1 ≡ status_request managed_mcg r.managed ∷ L.log s
  unfolding write_status ◌>>=◌ caught on_cluster
  write_status-log r s u =
      let Q : Reconciler × P.State → Type 0 =
        λ w. L.log w.1 ≡ status_request managed_mcg r.managed ∷ L.log s in
      rw u (
        bind_split Q (on_cluster P (P.update_status r.managed)) _ (r, s)
          (λ m e. L.log-update_status r.managed s) (L.log-update_status r.managed s))

  finish_state : (a b : Error ⊎ Unit {0}) (w : Reconciler × P.State) → (finish P a b w).1 ≡ w
  unfolding finish pure raise
  finish_state (inl e) b w = refl
  finish_state (inr u) (inl e) w = refl
  finish_state (inr u) (inr v) w = refl

  after_phases-log :
      (result : Error ⊎ Unit {0}) (r : Reconciler) (s : P.State)
      → (r.managed.metadata.uid == "") ≡ false
      → L.log ((write_status P >>= λ st. finish P result st) (r, s)).1.1
        ≡ status_request managed_mcg r.managed ∷ L.log s
  after_phases-log result r s u =
      let Q : Reconciler × P.State → Type 0 =
        λ w. L.log w.1 ≡ status_request managed_mcg r.managed ∷ L.log s in
      bind_split Q (write_status P) _ (r, s) (λ st e. rw finish_state (write_status-log r s u))
        (write_status-log r s u)

  after_get-log :
      (e : Option Error) (result : Error ⊎ Unit {0}) (r r₂ : Reconciler) (s s₂ : P.State)
      → e ≡ none
      → caught (reconcile_phases P) (r, s) ≡ (ok result, (r₂, s₂))
      → (r₂.managed.metadata.uid == "") ≡ false
      → L.log
          ((unless_missing P e >>= λ u.
              caught (reconcile_phases P) >>= λ result. write_status P >>= λ st. finish P result st)
            (r, s)).1.1
        ≡ status_request managed_mcg r₂.managed ∷ L.log s₂
  unfolding unless_missing ◌>>=◌ pure
  after_get-log none result r r₂ s s₂ n p u =
      rw (bind-ok (caught (reconcile_phases P)) _ p) (after_phases-log result r₂ s₂ u)
  after_get-log (some e) result r r₂ s s₂ n p u = cc

-- Where the ManagedMCG is fetched, and the phases end with it in existence, with success or with an
-- error, the last request of the reconciliation writes the status of the ManagedMCG as the phases
-- have left it.
pub status_written :
    (P : Platform) (L : IsLawful P) (r r₂ : Reconciler) (s s₂ : P.State) (result : Error ⊎ Unit {0})
    → let ((e, m), s₁) = P.get managed_mcg r.managed s in
      e ≡ none
      → caught (reconcile_phases P) (record r { managed = m }, s₁) ≡ (ok result, (r₂, s₂))
      → (r₂.managed.metadata.uid == "") ≡ false
      → L.log (reconcile_initialized P (r, s)).1.1
        ≡ status_request managed_mcg r₂.managed ∷ L.log s₂
unfolding reconcile_initialized ◌>>=◌
status_written P L r r₂ s s₂ result n p u = after_get-log P L _ result _ r₂ _ s₂ (rw n refl) p u

-- Where the ManagedMCG is fetched and the phases end with an error, the reconciliation returns that
-- error, wrapped, whether the status update that follows succeeds or fails.
pub phase_error_returned :
    (P : Platform) (r : Reconciler) (w₂ : Reconciler × P.State) (s : P.State) (why : Error)
    (st : Error ⊎ Unit {0})
    → let ((e, m), s₁) = P.get managed_mcg r.managed s in
      e ≡ none
      → reconcile_phases P (record r { managed = m }, s₁) ≡ (err why, w₂)
      → (write_status P w₂).0 ≡ ok st
      → (reconcile_initialized P (r, s)).0 ≡ err (wrapf "error reconciling ManagedMCG" why)
unfolding reconcile_initialized ◌>>=◌ unless_missing pure caught finish raise
phase_error_returned P r w₂ s why st n p t = rw (n, p, t) refl
