-- ===== src/Readiness.antt =====
-- readinessProbe/: the web server that tells whether the ManagedMCG resource is ready.
pub mod Codes
use mcg_osd_deployer.Base.{ℕ, String, Bool, ◌&&◌, Option, none, some, if◌then◌else◌, ◌⊎◌, inl, inr}
use mcg_osd_deployer.Exec.{Error, errorf, wrapf, Outcome, ok, err, panic, Exec}
use mcg_osd_deployer.Cluster.Api.{is_component_ready}
use mcg_osd_deployer.Cluster.Objects.{Resource, managed_mcg}
use mcg_osd_deployer.Cluster.Zero.{fresh}
use mcg_osd_deployer.Cluster.Platform.{Platform}

abbrev all_ready : Resource managed_mcg → Bool
all_ready m =
    is_component_ready noobaa
    && (is_component_ready prometheus
        && (is_component_ready alertmanager && is_component_ready console))
  where
    open m use {body.{status.{components.{noobaa, prometheus, alertmanager, console}}}}

unfoldable pub is_ready_answer : Option Error → Resource managed_mcg → Outcome Bool
is_ready_answer none m = ok (all_ready m)
is_ready_answer (some e) m = err (wrapf "error while ensuring managedMCG" e)

-- The status code that the handler writes, where the client does not panic.
unfoldable pub status_code : Outcome Bool → ℕ
status_code (ok ready) = if ready then 200 else 503
status_code (err e) = 500
status_code (panic why) = 500

module _ (P : Platform) where
  unfoldable pub is_ready : String → String → Exec P.State Bool
  unfolding is_ready_answer fresh
  is_ready name namespace s =
      let ((e, m), s') = P.get managed_mcg (fresh managed_mcg name namespace) s in
      (is_ready_answer e m, s')

  -- The handler that `RunServer` registers at `/readyz/`.
  unfoldable pub readyz : String → String → P.State → ℕ × P.State
  unfolding is_ready status_code
  readyz name namespace s = let (x, s') = is_ready name namespace s in (status_code x, s')

-- `main` up to the start of the server: the exit code 2 where `NAMESPACE` is not set, and else the
-- resource that the probe asks for, by name and namespace.
unfoldable pub probe_target : (String → Option String) → ℕ ⊎ (String × String)
probe_target look_up_env = elim (look_up_env "NAMESPACE") [
  | none ↦ inl 2
  | some namespace ↦ inr ("managedmcg", namespace)
]

abbrev server_exit_code : Outcome (Unit {0}) → ℕ
server_exit_code (panic why) = 2
server_exit_code (err e) = 0
server_exit_code (ok u) = 0

-- `main` as a whole, by the client that `client.New` makes or not, and by the run of the server, whose
-- error is only logged. A panic ends the program with the exit code 2.
unfoldable pub probe_exit_code :
    Outcome (Unit {0}) → (String → Option String) → (String × String → Outcome (Unit {0})) → ℕ
unfolding probe_target
probe_exit_code (panic why) look_up_env run_server = 2
probe_exit_code (err e) look_up_env run_server = 1
probe_exit_code (ok u) look_up_env run_server = elim (probe_target look_up_env) [
  | inl code ↦ code
  | inr target ↦ server_exit_code (run_server target)
]
