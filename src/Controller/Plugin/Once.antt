-- ===== src/Controller/Plugin/Once.antt =====
-- The plugin is added to the cluster's console once.
use mcg_osd_deployer.Base.{◌≡◌, refl, true, none, List, [], ◌∷◌, ◌++◌, arith}
use mcg_osd_deployer.Exec.{ok, pure, wrapping, ◌>>=◌}
use mcg_osd_deployer.Utils.{contains}
use mcg_osd_deployer.Utils.Slices.{contains-append, contains_self}
use mcg_osd_deployer.Cluster.Objects.{Resource, console}
use mcg_osd_deployer.Cluster.Platform.{Platform}
use mcg_osd_deployer.Controller.Reconciler.{Reconciler, mcgms_console_name}
use mcg_osd_deployer.Controller.Calls.{this, on_cluster}
use mcg_osd_deployer.Controller.Plugin.{has_plugin, add_plugin, reconcile_console_cluster}

has_plugin-append :
    (xs ys : List (Resource console)) (o : Resource console)
    → contains o.body mcgms_console_name ≡ true
    → has_plugin (xs ++ (o ∷ ys)) ≡ true
unfolding has_plugin
has_plugin-append [] ys o h = rw h refl
has_plugin-append (x ∷ xs) ys o h = ground (arith, has_plugin-append xs ys o h)

added : (o : Resource console) → contains (add_plugin o).body mcgms_console_name ≡ true
unfolding add_plugin
added o = rw (contains-append, contains_self) (ground arith)

-- Where a console that the operator has added its plugin to is among those that the API server lists,
-- `reconcileConsoleCluster` returns without an error and does nothing but that listing.
pub reconcile_console_cluster_settles :
    (P : Platform) (r : Reconciler) (s : P.State) (xs ys : List (Resource console))
    (o : Resource console)
    → (P.list console none s).0 ≡ ok (xs ++ (add_plugin o ∷ ys))
    → reconcile_console_cluster P (r, s) ≡ (ok tt, (r, (P.list console none s).1))
unfolding reconcile_console_cluster ◌>>=◌ this wrapping on_cluster pure
reconcile_console_cluster_settles P r s xs ys o e =
    rw (e, has_plugin-append xs ys (add_plugin o) (added o)) refl
