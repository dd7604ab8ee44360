-- ===== src/Controller/Callbacks/Drifting.antt =====
-- The callbacks of `CreateOrUpdate` on an object that others have changed since it was made.
use mcg_osd_deployer.Base.{◌≡◌}
use mcg_osd_deployer.Exec.{ok}
use mcg_osd_deployer.Cluster.Objects.{Kind, Resource}
use mcg_osd_deployer.Cluster.Platform.{Platform}
use mcg_osd_deployer.Controller.Reconciler.{Reconciler}
use mcg_osd_deployer.Controller.Callbacks.{Callback, callback}
use mcg_osd_deployer.Controller.Callbacks.Drift.{Drift}
use mcg_osd_deployer.Controller.Callbacks.Settling.{RefersOnce, callback-Settled}

-- An object that a callback of `CreateOrUpdate` has made, and that others have then changed in what the
-- callback writes, is made the same again by the next run of the callback, if the API server answers as
-- before. Of the body that is all, but for the type of the service of Prometheus and the phase of
-- NooBaa. Of the metadata it is the value of the label of the monitoring, on the Prometheus, its
-- service, the Alertmanager and its configuration, the values of the two annotations of that service, and
-- the owners of a claim; the rest of the metadata, all other references to owners included, is as the
-- callback left it. A reference to an owner that is there already has to be left as it is. The
-- callbacks for the console's service and plugin, for the NooBaa rules, and for the cluster's console
-- are not among those meant here.
pub changes_repaired :
    (P : Platform) {k : Kind} (c : Callback k) (o out drifted : Resource k)
    (w w' : Reconciler × P.State)
    → RefersOnce P
    → callback P c o w ≡ (ok out, w')
    → Drift c out drifted
    → callback P c drifted w ≡ (ok out, w')
changes_repaired P c o out drifted w w' once h drift =
    ((callback-Settled P once c).at o out w w' h).1 drifted drift
