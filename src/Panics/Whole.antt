-- ===== src/Panics/Whole.antt =====
-- A whole reconciliation.
use mcg_osd_deployer.Base.{String, Bool, Option, none, some, ◌⊎◌, inl, inr}
use mcg_osd_deployer.Exec.{Error}
use mcg_osd_deployer.Exec.Calm.{IsCalm, Calm, Calm-bind, calm_rules}
use mcg_osd_deployer.Cluster.Api.{ReconcileStrategy}
use mcg_osd_deployer.Cluster.Objects.{Resource, managed_mcg}
use mcg_osd_deployer.Cluster.Platform.{Platform, IsLawful}
use mcg_osd_deployer.Controller.Reconciler.{Config, initialize_reconciler}
use mcg_osd_deployer.Controller.Calls.{on_cluster}
use mcg_osd_deployer.Controller.Phases.{
  reconcile_deletion, start_deletion, reconcile_existing, dispatch, reconcile_phases, write_status,
  finish, unless_missing, reconcile_initialized, reconcile,
}
use mcg_osd_deployer.Panics.Calls.{Behaves, ListsComplete, call_rules, Calm-on_cluster}
use mcg_osd_deployer.Panics.Status.{verify-Calm, addon_params-Calm, status-Calm}
use mcg_osd_deployer.Panics.Removal.{
  remove_managed-Calm, add_managed-Calm, remove_noobaa-Calm, remove_olm-Calm,
}
use mcg_osd_deployer.Panics.Resources.{reconcile_resources-Calm}

module _ (P : Platform) (B : Behaves P) where
  deletion-Calm : Calm (reconcile_deletion P)
  unfolding reconcile_deletion
  deletion-Calm = search (call_rules, remove_managed-Calm, remove_noobaa-Calm) depth 14

  start_deletion-Calm : (found : Bool) → Calm (start_deletion P found)
  unfolding start_deletion
  start_deletion-Calm found = search call_rules depth 14

  update_status-Calm : (o : Resource managed_mcg) → Calm (on_cluster P (P.update_status o))
  update_status-Calm o = Calm-on_cluster P B _ (B.reporting o)

  write_status-Calm : Calm (write_status P)
  unfolding write_status
  write_status-Calm = search (call_rules, update_status-Calm) depth 14

  finish-Calm : (x y : Error ⊎ Unit {0}) → Calm (finish P x y)
  unfolding finish
  finish-Calm (inl e) y = search calm_rules
  finish-Calm (inr u) (inl e) = search calm_rules
  finish-Calm (inr u) (inr v) = search calm_rules

  unless_missing-Calm : (e : Option Error) → Calm (unless_missing P e)
  unfolding unless_missing
  unless_missing-Calm none = search calm_rules
  unless_missing-Calm (some e) = search calm_rules

module _ (P : Platform) (L : IsLawful P) (B : Behaves P) (complete : ListsComplete P) where
  existing-Calm : (found : Bool) → Calm (reconcile_existing P found)
  unfolding reconcile_existing
  existing-Calm found =
      search
        (
          call_rules, add_managed-Calm, addon_params-Calm, reconcile_resources-Calm,
          start_deletion-Calm,
        )
        depth 20

  dispatch-Calm : (found : Bool) → Calm (dispatch P found)
  unfolding dispatch
  dispatch-Calm found = search (call_rules, deletion-Calm, existing-Calm, remove_olm-Calm) depth 14

  phases-Calm : Calm (reconcile_phases P)
  unfolding reconcile_phases
  phases-Calm = search (Calm-bind, verify-Calm, status-Calm, dispatch-Calm) depth 14

  initialized-Calm : Calm (reconcile_initialized P)
  unfolding reconcile_initialized
  initialized-Calm =
      search (call_rules, unless_missing-Calm, phases-Calm, write_status-Calm, finish-Calm) depth 20

  -- A whole reconciliation returns or fails.
  pub reconcile-IsCalm :
      (c : Config) (strategy : ReconcileStrategy) (namespace name : String) (s : P.State)
      → IsCalm (reconcile P c strategy namespace name s).0
  unfolding reconcile
  reconcile-IsCalm c strategy namespace name s =
      initialized-Calm.at (initialize_reconciler c strategy namespace name, s)
