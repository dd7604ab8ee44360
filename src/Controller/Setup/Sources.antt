-- ===== src/Controller/Setup/Sources.antt =====
-- What the reconciliation reads is watched, so that a change of it leads to a reconciliation.
use mcg_osd_deployer.Base.{◌≡◌, refl, String, Option, some, arith, eq_iff}
use mcg_osd_deployer.Cluster.Meta.{ObjectMeta}
use mcg_osd_deployer.Cluster.Api.{ReconcileStrategy}
use mcg_osd_deployer.Cluster.Zero.{fresh}
use mcg_osd_deployer.Cluster.Objects.{secret, noobaa}
use mcg_osd_deployer.Controller.Reconciler.{Config, initialize_reconciler, managed_mcg_name}
use mcg_osd_deployer.Controller.Setup.{watched_request}

-- An object of that name and namespace, whatever else its metadata hold.
abbrev pub located : ObjectMeta → String → String → ObjectMeta
located m name namespace = record m { name = name; namespace = namespace }

-- The object of every event on a secret or a NooBaa that a reconciliation looks up by the reconciler's
-- configuration, whatever labels and other metadata the object has, leads to a reconciliation of the
-- ManagedMCG in the same namespace: the secrets of PagerDuty, of the dead man's snitch, of the mail
-- server and of the remote write, the secret of the addon's parameters, and NooBaa itself.
pub sources_watched :
    (c : Config) (strategy : ReconcileStrategy) (namespace name : String) (m : ObjectMeta)
    → let r = initialize_reconciler c strategy namespace name in
      let found : Option (String × String) = some (managed_mcg_name, namespace) in
      (watched_request c secret (located m c.addon_param_secret_name namespace) ≡ found)
      × (watched_request c secret
            (located m r.pagerduty_secret.metadata.name r.pagerduty_secret.metadata.namespace)
          ≡ found)
      × (watched_request c secret (
            located m r.dead_mans_snitch_secret.metadata.name
              r.dead_mans_snitch_secret.metadata.namespace)
          ≡ found)
      × (watched_request c secret
            (located m r.smtp_secret.metadata.name r.smtp_secret.metadata.namespace)
          ≡ found)
      × (watched_request c secret (
            located m r.rhobs_remote_write_config_secret.metadata.name
              r.rhobs_remote_write_config_secret.metadata.namespace)
          ≡ found)
      × (watched_request c noobaa
            (located m r.the_noobaa.metadata.name r.the_noobaa.metadata.namespace)
          ≡ found)
unfolding watched_request initialize_reconciler fresh
sources_watched c strategy namespace name m = (
  ground (arith, eq_iff c.addon_param_secret_name c.addon_param_secret_name),
  ground (arith, eq_iff c.pagerduty_secret_name c.pagerduty_secret_name),
  ground (arith, eq_iff c.dead_mans_snitch_secret_name c.dead_mans_snitch_secret_name),
  ground (arith, eq_iff c.smtp_secret_name c.smtp_secret_name),
  ground (arith, eq_iff c.rhobs_secret_name c.rhobs_secret_name),
  refl,
)
