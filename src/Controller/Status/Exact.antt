-- ===== src/Controller/Status/Exact.antt =====
-- When exactly `updateComponentStatus` calls a component ready, and when not found.
use mcg_osd_deployer.Base.{
  ◌≡◌, refl, ◌↔◌, String, ◌<>◌, true, false, Option, none, some, eq_iff, arith,
}
use mcg_osd_deployer.Base.Int.{ℤ, ltb_ℤ}
use mcg_osd_deployer.Exec.{Error, ok, pure, wrapf, ◌>>=◌}
use mcg_osd_deployer.Exec.Runs.{bind-ok}
use mcg_osd_deployer.Cluster.Api.{ComponentState, ready, not_found}
use mcg_osd_deployer.Cluster.Objects.{Resource, noobaa, prometheus, stateful_set}
use mcg_osd_deployer.Cluster.Zero.{fresh}
use mcg_osd_deployer.Cluster.Platform.{Platform, IsLawful}
use mcg_osd_deployer.Controller.Reconciler.{Reconciler, prometheus_name}
use mcg_osd_deployer.Controller.Calls.{wrap_error}
use mcg_osd_deployer.Controller.Status.{
  failed_state, phase_state, check_replica_status, desired_replicas, replicas_or_pending,
  noobaa_answer, stateful_set_state, prometheus_answer, update_noobaa_component_status,
  update_prometheus_component_status,
}

module _ (P : Platform) (L : IsLawful P) where
  pub failed_state-ne-ready : (e : Error) → failed_state P e ≡ ready → ⊥
  unfolding failed_state
  failed_state-ne-ready e h = ground arith

  failed_state-not_found :
      (why : String) (e : Error)
      → (failed_state P (wrapf why e) ≡ not_found) ↔ (P.is_not_found e ≡ true)
  unfolding failed_state
  failed_state-not_found why e = let h = L.is_not_found-wrapf why e in ground (arith, h)

  phase_state-ready : (phase : String) → (phase_state phase ≡ ready) ↔ (phase ≡ "Ready")
  unfolding phase_state
  phase_state-ready phase = ground (arith, eq_iff phase "Ready")

  phase_state-ne-not_found : (phase : String) → phase_state phase ≡ not_found → ⊥
  unfolding phase_state
  phase_state-ne-not_found phase h = ground arith

  noobaa_answer_exact :
      (e : Option Error) (phase : String)
      → let state = noobaa_answer P (wrap_error "error getting" e) phase in
        ((state ≡ ready) ↔ ((e ≡ none) × (phase ≡ "Ready")))
        × ((state ≡ not_found) ↔ ((why : Error) × (e ≡ some why) × (P.is_not_found why ≡ true)))
  unfolding noobaa_answer
  noobaa_answer_exact none phase = (
    (λ h. (refl, (phase_state-ready phase).0 h), λ h. (phase_state-ready phase).1 h.1),
    (λ h. absurd (phase_state-ne-not_found phase h), λ h. cc (h.1)),
  )
  noobaa_answer_exact (some e) phase = (
    (λ h. absurd (failed_state-ne-ready _ h), λ h. cc (h.0)),
    (
      λ h. (e, refl, (failed_state-not_found _ e).0 h),
      λ (why, eq, h). (failed_state-not_found _ e).1 (ground (arith, eq, h)),
    ),
  )

  -- NooBaa is called ready exactly when its resource was fetched without an error and its phase is
  -- `Ready`, and not found exactly when fetching it failed with a not-found error.
  pub noobaa_state_exact :
      (r : Reconciler) (s : P.State)
      → let ((e, o), s') = P.get noobaa r.the_noobaa s in
        let state =
          (update_noobaa_component_status P (r, s)).1.0.managed.body.status.components.noobaa in
        ((state ≡ ready) ↔ ((e ≡ none) × (o.body.phase ≡ "Ready")))
        × ((state ≡ not_found) ↔ ((why : Error) × (e ≡ some why) × (P.is_not_found why ≡ true)))
  unfolding update_noobaa_component_status ◌>>=◌
  noobaa_state_exact r s = noobaa_answer_exact _ _

  pub replicas_or_pending_exact :
      (e : Option Error) (a b : ℤ)
      → (replicas_or_pending (wrap_error "error getting" e) a b ≡ ready)
        ↔ ((e ≡ none) × (ltb_ℤ a b ≡ false))
  unfolding replicas_or_pending check_replica_status
  replicas_or_pending_exact none a b = ground arith
  replicas_or_pending_exact (some e) a b = ground arith

  prometheus_answer_exact :
      (e : Option Error) (o : Resource prometheus) (r : Reconciler) (s : P.State)
      → let name = "prometheus-" <> prometheus_name in
        let ((e', set), s') = P.get stateful_set (fresh stateful_set name r.namespace) s in
        (state : ComponentState) × (t : P.State) × (prometheus_answer P
            (wrap_error "error getting" e)
            o
            (r, s)
          ≡ (ok state, (r, t)))
        × ((state ≡ ready) ↔ (
            (e ≡ none)
            × (e' ≡ none)
            × (ltb_ℤ set.body (desired_replicas o.body.prometheus_replicas) ≡ false)))
  unfolding prometheus_answer stateful_set_state ◌>>=◌ pure
  prometheus_answer_exact none o r s = (
    _,
    _,
    refl,
    (
      λ h. let (a, b) = (replicas_or_pending_exact _ _ _).0 h in (refl, a, b),
      λ (z, a, b). (replicas_or_pending_exact _ _ _).1 (a, b),
    ),
  )
  prometheus_answer_exact (some e) o r s =
      (_, _, refl, (λ h. absurd (failed_state-ne-ready _ h), λ h. cc (h.0)))

  -- Prometheus is called ready exactly when its resource and its stateful set were both fetched
  -- without an error, the latter in the operator's namespace, and the stateful set has at least the
  -- desired number of ready replicas, one where the resource names none.
  pub prometheus_state_exact :
      (r : Reconciler) (s : P.State)
      → let ((e, o), s₁) = P.get prometheus r.the_prometheus s in
        let name = "prometheus-" <> prometheus_name in
        let ((e', set), s₂) = P.get stateful_set (fresh stateful_set name r.namespace) s₁ in
        let r' = (update_prometheus_component_status P (r, s)).1.0 in
        (r'.managed.body.status.components.prometheus ≡ ready) ↔ (
          (e ≡ none)
          × (e' ≡ none)
          × (ltb_ℤ set.body (desired_replicas o.body.prometheus_replicas) ≡ false))
  unfolding update_prometheus_component_status ◌>>=◌
  prometheus_state_exact r s =
      let ((e, o), s₁) = P.get prometheus r.the_prometheus s in
      let (state, t, eq, h) = prometheus_answer_exact e o (record r { the_prometheus = o }) s₁ in
      rw (bind-ok (prometheus_answer P _ o) _ eq) h
