-- ===== src/Controller/Status/Workloads.antt =====
-- When exactly `updateComponentStatus` calls Alertmanager and the console ready.
use mcg_osd_deployer.Base.{◌≡◌, refl, ◌↔◌, ◌<>◌, false, Option, none, some}
use mcg_osd_deployer.Base.Int.{pos, ltb_ℤ}
use mcg_osd_deployer.Exec.{Error, ok, pure, ◌>>=◌}
use mcg_osd_deployer.Exec.Runs.{bind-ok}
use mcg_osd_deployer.Cluster.Api.{ComponentState, ready}
use mcg_osd_deployer.Cluster.Objects.{
  Resource, alertmanager, console_plugin, stateful_set, deployment,
}
use mcg_osd_deployer.Cluster.Zero.{fresh}
use mcg_osd_deployer.Cluster.Platform.{Platform, IsLawful}
use mcg_osd_deployer.Controller.Reconciler.{Reconciler, alertmanager_name, mcgms_console_name}
use mcg_osd_deployer.Controller.Calls.{wrap_error}
use mcg_osd_deployer.Controller.Status.{
  desired_replicas, stateful_set_state, deployment_state, alertmanager_answer, console_answer,
  update_alertmanager_component_status, update_console_component_status,
}
use mcg_osd_deployer.Controller.Status.Exact.{failed_state-ne-ready, replicas_or_pending_exact}

module _ (P : Platform) (L : IsLawful P) where
  alertmanager_answer_exact :
      (e : Option Error) (o : Resource alertmanager) (r : Reconciler) (s : P.State)
      → let name = "alertmanager-" <> alertmanager_name in
        let ((e', set), s') = P.get stateful_set (fresh stateful_set name r.namespace) s in
        (state : ComponentState) × (t : P.State) × (alertmanager_answer P
            (wrap_error "error getting" e)
            o
            (r, s)
          ≡ (ok state, (r, t)))
        × ((state ≡ ready) ↔ (
            (e ≡ none)
            × (e' ≡ none)
            × (ltb_ℤ set.body (desired_replicas o.body.alertmanager_replicas) ≡ false)))
  unfolding alertmanager_answer stateful_set_state ◌>>=◌ pure
  alertmanager_answer_exact none o r s = (
    _,
    _,
    refl,
    (
      λ h. let (a, b) = (replicas_or_pending_exact P L _ _ _).0 h in (refl, a, b),
      λ (z, a, b). (replicas_or_pending_exact P L _ _ _).1 (a, b),
    ),
  )
  alertmanager_answer_exact (some e) o r s =
      (_, _, refl, (λ h. absurd (failed_state-ne-ready P L _ h), λ h. cc (h.0)))

  console_answer_exact :
      (e : Option Error) (r : Reconciler) (s : P.State)
      → let ((e', d), s') = P.get deployment (fresh deployment mcgms_console_name r.namespace) s in
        (state : ComponentState) × (t : P.State) × (console_answer P
            (wrap_error "error getting" e)
            (r, s)
          ≡ (ok state, (r, t)))
        × ((state ≡ ready) ↔ ((e ≡ none) × (e' ≡ none) × (ltb_ℤ d.body (pos 1) ≡ false)))
  unfolding console_answer deployment_state ◌>>=◌ pure
  console_answer_exact none r s = (
    _,
    _,
    refl,
    (
      λ h. let (a, b) = (replicas_or_pending_exact P L _ _ _).0 h in (refl, a, b),
      λ (z, a, b). (replicas_or_pending_exact P L _ _ _).1 (a, b),
    ),
  )
  console_answer_exact (some e) r s =
      (_, _, refl, (λ h. absurd (failed_state-ne-ready P L _ h), λ h. cc (h.0)))

  -- Alertmanager is called ready exactly when its resource and its stateful set were both fetched
  -- without an error, the latter in the operator's namespace, and the stateful set has at least the
  -- desired number of ready replicas, one where the resource names none.
  pub alertmanager_state_exact :
      (r : Reconciler) (s : P.State)
      → let ((e, o), s₁) = P.get alertmanager r.the_alertmanager s in
        let name = "alertmanager-" <> alertmanager_name in
        let ((e', set), s₂) = P.get stateful_set (fresh stateful_set name r.namespace) s₁ in
        let r' = (update_alertmanager_component_status P (r, s)).1.0 in
        (r'.managed.body.status.components.alertmanager ≡ ready) ↔ (
          (e ≡ none)
          × (e' ≡ none)
          × (ltb_ℤ set.body (desired_replicas o.body.alertmanager_replicas) ≡ false))
  unfolding update_alertmanager_component_status ◌>>=◌
  alertmanager_state_exact r s =
      let ((e, o), s₁) = P.get alertmanager r.the_alertmanager s in
      let (state, t, eq, h) =
        alertmanager_answer_exact e o (record r { the_alertmanager = o }) s₁ in
      rw (bind-ok (alertmanager_answer P _ o) _ eq) h

  -- The console is called ready exactly when its plugin and its deployment were both fetched without
  -- an error, the latter in the operator's namespace, and the deployment has a ready replica.
  pub console_state_exact :
      (r : Reconciler) (s : P.State)
      → let ((e, o), s₁) = P.get console_plugin r.console_plugin_object s in
        let ((e', d), s₂) = P.get deployment (fresh deployment mcgms_console_name r.namespace) s₁ in
        let r' = (update_console_component_status P (r, s)).1.0 in
        (r'.managed.body.status.components.console ≡ ready)
        ↔ ((e ≡ none) × (e' ≡ none) × (ltb_ℤ d.body (pos 1) ≡ false))
  unfolding update_console_component_status ◌>>=◌
  console_state_exact r s =
      let ((e, o), s₁) = P.get console_plugin r.console_plugin_object s in
      let (state, t, eq, h) = console_answer_exact e (record r { console_plugin_object = o }) s₁ in
      rw (bind-ok (console_answer P _) _ eq) h
