-- ===== src/Panics/Prometheus.antt =====
-- `reconcilePrometheus` and the secret of its relabelings: no path panics.
use mcg_osd_deployer.Base.{◌≡◌, String, true, Option, none, some, List, ◌⊎◌, inl, inr, is_some}
use mcg_osd_deployer.Base.Dict.{Dict, lookup}
use mcg_osd_deployer.Exec.{Error, errorf, ok, err}
use mcg_osd_deployer.Exec.Runs.{wrapping_inv}
use mcg_osd_deployer.Exec.Calm.{
  IsCalm, Calm, Calm-pure, Calm-wrapping, Calm-after, Calm-bind, calm_rules,
}
use mcg_osd_deployer.Controller.Calls.Prefix.{get_csv_by_prefix_lem}
use mcg_osd_deployer.Cluster.Monitoring.{AlertmanagerEndpoints, Container, StrategyDeploymentSpec}
use mcg_osd_deployer.Cluster.Objects.{Resource, prometheus}
use mcg_osd_deployer.Cluster.Platform.{Platform}
use mcg_osd_deployer.Controller.Reconciler.{Config, deployer_csv_prefix}
use mcg_osd_deployer.Panics.Calls.{
  Behaves, ListsComplete, call_rules, get_csv_by_prefix-IsComplete, Calm-this, Calm-own,
  Calm-get_csv_by_prefix,
}
use mcg_osd_deployer.Controller.Monitoring.Metrics.{
  require_key, relabel_encoded, prometheus_desired, containers_of, unless_not_found,
  remote_write_with, configure_rhobs_remote_write, prometheus_as, reconcile_prometheus,
  reconcile_alert_relabel_config_secret,
}
use mcg_osd_deployer.Templates.Metrics.{prometheus_template}

module _ (P : Platform) (B : Behaves P) where
  relabel_encoded-IsCalm : (x : Error ⊎ String) → IsCalm (relabel_encoded P x)
  relabel_encoded-IsCalm (inl e) = tt
  relabel_encoded-IsCalm (inr text) = tt

  pub relabel_secret-Calm : Calm (reconcile_alert_relabel_config_secret P)
  unfolding reconcile_alert_relabel_config_secret
  relabel_secret-Calm = search (call_rules, relabel_encoded-IsCalm) depth 14

  containers_of-Calm :
      (d : Option StrategyDeploymentSpec) → is_some d ≡ true → Calm (containers_of P d)
  containers_of-Calm none h = cc
  containers_of-Calm (some d) h = search calm_rules

  unless_not_found-Calm : (e : Option Error) → Calm (unless_not_found P e)
  unless_not_found-Calm none = search calm_rules
  unless_not_found-Calm (some e) = search calm_rules

  require_key-IsCalm : (key : String) (entries : Dict String) → IsCalm (require_key key entries)
  unfolding require_key
  require_key-IsCalm key entries =
      elim (lookup key entries)
        as (λ x. IsCalm (elim x [
          | none ↦ err (errorf "rhobs secret does not contain a value for key")
          | some v ↦ ok v
        ])) [ none ↦ tt | some v ↦ tt ]

  -- The template has a remote write to fill in.
  remote_write-Calm :
      (c : Config) (entries : Dict String) (cs : List Container) (es : List AlertmanagerEndpoints)
      → Calm (remote_write_with P c entries (prometheus_desired cs es))
  unfolding remote_write_with prometheus_desired prometheus_template
  remote_write-Calm c entries cs es = search (calm_rules, require_key-IsCalm) depth 14

  rhobs-Calm :
      (cs : List Container) (es : List AlertmanagerEndpoints)
      → Calm (configure_rhobs_remote_write P (prometheus_desired cs es))
  unfolding configure_rhobs_remote_write
  rhobs-Calm cs es = search (call_rules, remote_write-Calm, unless_not_found-Calm) depth 14

module _ (P : Platform) (B : Behaves P) (complete : ListsComplete P) where
  prometheus_as-Calm : (o : Resource prometheus) → Calm (prometheus_as P o)
  unfolding prometheus_as prometheus_template
  prometheus_as-Calm o = Calm-bind _ _ (Calm-this P B) λ r. Calm-bind _ _ (Calm-own P B o) λ o'.
      Calm-after _ _ (Calm-wrapping _ _ (Calm-get_csv_by_prefix P B deployer_csv_prefix)) λ csv w e.
        let found = wrapping_inv _ _ w e in
        let whole = get_csv_by_prefix-IsComplete P complete deployer_csv_prefix w found in
        Calm-bind _ _
          (containers_of-Calm P B _
            (whole.deployed (get_csv_by_prefix_lem P deployer_csv_prefix w found)))
          λ cs.
            Calm-bind _ _ (Calm-pure _)
              λ es. Calm-bind _ _ (rhobs-Calm P B cs es) λ spec. Calm-pure _

  pub prometheus-Calm : Calm (reconcile_prometheus P)
  unfolding reconcile_prometheus
  prometheus-Calm = search (call_rules, prometheus_as-Calm) depth 14
