-- ===== src/Controller/Status/Table.antt =====
-- What `updateComponentStatus` decides, for every answer of the API server.
use mcg_osd_deployer.Base.{◌≡◌, ◌∙◌, sym, ap, refl, String, Option, none, some, arith}
use mcg_osd_deployer.Base.Int.{ℤ}
use mcg_osd_deployer.Exec.{Error, ok, pure, ◌>>=◌}
use mcg_osd_deployer.Exec.Runs.{bind-ok}
use mcg_osd_deployer.Cluster.Api.{
  ComponentState, ready, pending, not_found, unknown, ComponentStatusMap,
}
use mcg_osd_deployer.Cluster.Objects.{Resource, prometheus, alertmanager, console_plugin}
use mcg_osd_deployer.Cluster.Platform.{Platform}
use mcg_osd_deployer.Controller.Reconciler.{Reconciler}
use mcg_osd_deployer.Controller.Calls.{M}
use mcg_osd_deployer.Controller.Status.{
  check_replica_status, update_noobaa_component_status, update_prometheus_component_status,
  prometheus_answer, stateful_set_state, failed_state, replicas_or_pending, noobaa_answer,
  alertmanager_answer, console_answer, deployment_state, prometheus_answer, stateful_set_state,
  update_alertmanager_component_status, update_console_component_status, update_component_status,
}

-- One of the four constants.
abbrev pub IsDecided : ComponentState → Type 0
IsDecided ready = Unit
IsDecided pending = Unit
IsDecided not_found = Unit
IsDecided unknown = Unit
IsDecided _ = ⊥

abbrev pub components : Reconciler → ComponentStatusMap
components r = r.managed.body.status.components

-- A call that returns a decided state and leaves the reconciler as it is.
abbrev Answers : (P : Platform) → M P ComponentState → Type 0
Answers P m =
    (r : Reconciler) (s : P.State)
    → (state : ComponentState) × (s' : P.State) × (m (r, s) ≡ (ok state, (r, s'))) × IsDecided state

module _ (P : Platform) where
  failed_state-IsDecided : (e : Error) → IsDecided (failed_state P e)
  unfolding failed_state
  failed_state-IsDecided e = ground arith

  check_replica_status-IsDecided : (a b : ℤ) → IsDecided (check_replica_status a b)
  unfolding check_replica_status
  check_replica_status-IsDecided a b = ground arith

  noobaa_answer-IsDecided :
      (e : Option Error) (phase : String) → IsDecided (noobaa_answer P e phase)
  unfolding noobaa_answer
  noobaa_answer-IsDecided none phase = ground arith
  noobaa_answer-IsDecided (some e) phase = failed_state-IsDecided e

  replicas_or_pending-IsDecided :
      (e : Option Error) (a b : ℤ) → IsDecided (replicas_or_pending e a b)
  unfolding replicas_or_pending
  replicas_or_pending-IsDecided none a b = check_replica_status-IsDecided a b
  replicas_or_pending-IsDecided (some e) a b = tt

  prometheus_answer-Answers :
      (e : Option Error) (o : Resource prometheus) → Answers P (prometheus_answer P e o)
  unfolding prometheus_answer stateful_set_state ◌>>=◌ pure
  prometheus_answer-Answers none o r s = (_, _, refl, replicas_or_pending-IsDecided _ _ _)
  prometheus_answer-Answers (some e) o r s = (_, _, refl, failed_state-IsDecided e)

  alertmanager_answer-Answers :
      (e : Option Error) (o : Resource alertmanager) → Answers P (alertmanager_answer P e o)
  unfolding alertmanager_answer stateful_set_state ◌>>=◌ pure
  alertmanager_answer-Answers none o r s = (_, _, refl, replicas_or_pending-IsDecided _ _ _)
  alertmanager_answer-Answers (some e) o r s = (_, _, refl, failed_state-IsDecided e)

  console_answer-Answers : (e : Option Error) → Answers P (console_answer P e)
  unfolding console_answer deployment_state ◌>>=◌ pure
  console_answer-Answers none r s = (_, _, refl, replicas_or_pending-IsDecided _ _ _)
  console_answer-Answers (some e) r s = (_, _, refl, failed_state-IsDecided e)

  -- A call that always returns, and sets one component's state to a decided one.
  abbrev Sets : M P (Unit {0}) → (ComponentState → ComponentStatusMap → ComponentStatusMap) → Type 0
  Sets m set =
      (r : Reconciler) (s : P.State)
      → (state : ComponentState) × (w : Reconciler × P.State) × (m (r, s) ≡ (ok tt, w))
        × (components w.0 ≡ set state (components r))
        × (w.0.managed.metadata ≡ r.managed.metadata)
        × IsDecided state

  noobaa-Sets : Sets (update_noobaa_component_status P) (λ state c. record c { noobaa = state })
  unfolding update_noobaa_component_status ◌>>=◌
  noobaa-Sets r s = (_, _, refl, refl, refl, noobaa_answer-IsDecided _ _)

  prometheus-Sets :
      Sets (update_prometheus_component_status P) (λ state c. record c { prometheus = state })
  unfolding update_prometheus_component_status ◌>>=◌
  prometheus-Sets r s =
      let ((e, o), s₁) = P.get prometheus r.the_prometheus s in
      let (state, s', eq, d) = prometheus_answer-Answers _ o (record r { the_prometheus = o }) s₁ in
      (state, _, bind-ok (prometheus_answer P _ o) _ eq, refl, refl, d)

  alertmanager-Sets :
      Sets (update_alertmanager_component_status P) (λ state c. record c { alertmanager = state })
  unfolding update_alertmanager_component_status ◌>>=◌
  alertmanager-Sets r s =
      let ((e, o), s₁) = P.get alertmanager r.the_alertmanager s in
      let (state, s', eq, d) =
        alertmanager_answer-Answers _ o (record r { the_alertmanager = o }) s₁ in
      (state, _, bind-ok (alertmanager_answer P _ o) _ eq, refl, refl, d)

  console-Sets : Sets (update_console_component_status P) (λ state c. record c { console = state })
  unfolding update_console_component_status ◌>>=◌
  console-Sets r s =
      let ((e, o), s₁) = P.get console_plugin r.console_plugin_object s in
      let (state, s', eq, d) =
        console_answer-Answers _ (record r { console_plugin_object = o }) s₁ in
      (state, _, bind-ok (console_answer P _) _ eq, refl, refl, d)

  -- The update of the status never fails, and sets each component's state to `Ready`, `Pending`,
  -- `NotFound` or `Unknown`, whatever the API server answers and whatever the status held before.
  -- The metadata of the ManagedMCG stays as it was.
  pub update_component_status_decides :
      (r : Reconciler) (s : P.State)
      → let (x, (r', s')) = update_component_status P (r, s) in
        (x ≡ ok tt)
        × (r'.managed.metadata ≡ r.managed.metadata)
        × IsDecided (components r').noobaa
        × IsDecided (components r').prometheus
        × IsDecided (components r').alertmanager
        × IsDecided (components r').console
  unfolding update_component_status
  update_component_status_decides r s =
      let (a, (r₁, s₁), e₁, c₁, n₁, d₁) = noobaa-Sets r s in
      let (b, (r₂, s₂), e₂, c₂, n₂, d₂) = prometheus-Sets r₁ s₁ in
      let (c, (r₃, s₃), e₃, c₃, n₃, d₃) = alertmanager-Sets r₂ s₂ in
      let (d, (r₄, s₄), e₄, c₄, n₄, d₄) = console-Sets r₃ s₃ in
      rw
        (
          bind-ok (update_noobaa_component_status P) _ e₁,
          bind-ok (update_prometheus_component_status P) _ e₂,
          bind-ok (update_alertmanager_component_status P) _ e₃,
          e₄,
          c₄,
          c₃,
          c₂,
          c₁,
        )
        (refl, n₄ ∙ n₃ ∙ n₂ ∙ n₁, d₁, d₂, d₃, d₄)

  -- The later lookups leave the state of NooBaa alone.
  pub update_component_status-noobaa :
      (r : Reconciler) (s : P.State)
      → (components (update_component_status P (r, s)).1.0).noobaa
        ≡ (components (update_noobaa_component_status P (r, s)).1.0).noobaa
  unfolding update_component_status
  update_component_status-noobaa r s =
      let (a, (r₁, s₁), e₁, c₁, n₁, d₁) = noobaa-Sets r s in
      let (b, (r₂, s₂), e₂, c₂, n₂, d₂) = prometheus-Sets r₁ s₁ in
      let (c, (r₃, s₃), e₃, c₃, n₃, d₃) = alertmanager-Sets r₂ s₂ in
      let (d, (r₄, s₄), e₄, c₄, n₄, d₄) = console-Sets r₃ s₃ in
      rw
        (
          bind-ok (update_noobaa_component_status P) _ e₁,
          bind-ok (update_prometheus_component_status P) _ e₂,
          bind-ok (update_alertmanager_component_status P) _ e₃,
          e₄,
          c₄,
          c₃,
          c₂,
        )
        (ap (λ x. (components x.1.0).noobaa) (sym e₁))
