-- ===== src/Readiness/Codes.antt =====
-- The status code of the probe, for every answer of the API server.
use mcg_osd_deployer.Base.{◌≡◌, ◌↔◌, String, true, false, Option, none, some, arith, is_some}
use mcg_osd_deployer.Exec.{Error}
use mcg_osd_deployer.Cluster.Objects.{Resource, managed_mcg}
use mcg_osd_deployer.Cluster.Zero.{fresh}
use mcg_osd_deployer.Cluster.Platform.{Platform}
use mcg_osd_deployer.Controller.Status.{are_components_ready}
use mcg_osd_deployer.Readiness.{is_ready_answer, status_code, is_ready, readyz}

answer_codes :
    (e : Option Error) (m : Resource managed_mcg)
    → let code = status_code (is_ready_answer e m) in
      let all = are_components_ready m.body.status.components in
      ((code ≡ 200) ↔ ((e ≡ none) × (all ≡ true)))
      × ((code ≡ 503) ↔ ((e ≡ none) × (all ≡ false)))
      × ((code ≡ 500) ↔ (is_some e ≡ true))
unfolding is_ready_answer status_code are_components_ready
answer_codes none m = (ground arith, ground arith, ground arith)
answer_codes (some e) m = (ground arith, ground arith, ground arith)

-- The probe answers 200 exactly where the ManagedMCG was fetched and the operator's own test for
-- ready components holds of its status, 503 exactly where it was fetched and that test fails, and 500
-- exactly where fetching it failed.
pub readyz_codes :
    (P : Platform) (name namespace : String) (s : P.State)
    → let ((e, m), s') = P.get managed_mcg (fresh managed_mcg name namespace) s in
      let code = (readyz P name namespace s).0 in
      let all = are_components_ready m.body.status.components in
      ((code ≡ 200) ↔ ((e ≡ none) × (all ≡ true)))
      × ((code ≡ 503) ↔ ((e ≡ none) × (all ≡ false)))
      × ((code ≡ 500) ↔ (is_some e ≡ true))
unfolding readyz is_ready
readyz_codes P name namespace s = answer_codes _ _
