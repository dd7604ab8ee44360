-- ===== src/Lifecycle/Access.antt =====
-- Whether the markers of the operator ask for the access that its write requests need.
use mcg_osd_deployer.Base.{◌≡◌, refl, Bool, true, false, if◌then◌else◌}
use mcg_osd_deployer.Cluster.Objects.{
  Kind, Resource, managed_mcg, noobaa, bucket_class, backing_store, namespace_store,
  object_bucket_claim, cluster_service_version, deployment, stateful_set, pod_monitor,
  service_monitor, console_plugin, console, cluster_version,
}
use mcg_osd_deployer.Cluster.Platform.{
  Platform, IsLawful, Request, create_request, update_request, delete_request, status_request,
}
use mcg_osd_deployer.Controller.Reconciler.{Config, Reconciler}
use mcg_osd_deployer.Controller.Access.{markers, access_of, is_granted, is_granted_everywhere}
use mcg_osd_deployer.Safety.Within.{Extends}
use mcg_osd_deployer.Safety.Kinds.{IsKept, IsMade, IsUpkeep}
use mcg_osd_deployer.Safety.Removal.{IsRemoval}
use mcg_osd_deployer.Safety.Resources.{IsClaim}
use mcg_osd_deployer.Lifecycle.Owned.{
  Owned, kept, removed, claimed, claim_deleted, created, marked, retired, reported, uninstalled,
  Extends-weaken,
}
use mcg_osd_deployer.Lifecycle.History.{History, History-Owned}

-- By its kind, the object of the request may stand outside the operator's namespace: the kind is one
-- outside namespaces, or a claim, which stands in the namespace that a bucket class names.
abbrev pub is_far : Request → Bool
is_far (create_request object_bucket_claim o) = true
is_far (update_request object_bucket_claim o) = true
is_far (delete_request object_bucket_claim o) = true
is_far (create_request console_plugin o) = true
is_far (update_request console_plugin o) = true
is_far (create_request console o) = true
is_far (update_request console o) = true
is_far _ = false

abbrev pub updates_claim : Request → Bool
updates_claim (update_request object_bucket_claim o) = true
updates_claim _ = false

-- A marker asks for the request's verb on its resource, and for that in all namespaces where the
-- object may stand elsewhere, but for the update of a claim, which no marker asks for in all namespaces.
abbrev pub IsGranted : Request → Type 0
IsGranted q =
    let (resource, verb) = access_of q in
    (is_granted markers resource verb ≡ true)
    × (is_far q ≡ true
        → is_granted_everywhere markers resource verb ≡ (if updates_claim q then false else true))

made-IsGranted : (k : Kind) (o : Resource k) → IsMade k → IsGranted (create_request k o)
unfolding is_granted is_granted_everywhere
made-IsGranted managed_mcg o h = absurd h
made-IsGranted bucket_class o h = absurd h
made-IsGranted backing_store o h = absurd h
made-IsGranted namespace_store o h = absurd h
made-IsGranted object_bucket_claim o h = absurd h
made-IsGranted deployment o h = absurd h
made-IsGranted stateful_set o h = absurd h
made-IsGranted cluster_version o h = absurd h
made-IsGranted cluster_service_version o h = absurd h
made-IsGranted pod_monitor o h = absurd h
made-IsGranted service_monitor o h = absurd h
made-IsGranted _ o h = (refl, λ e. cc)

kept-IsGranted : (k : Kind) (o : Resource k) → IsKept k → IsGranted (update_request k o)
unfolding is_granted is_granted_everywhere
kept-IsGranted managed_mcg o h = absurd h
kept-IsGranted bucket_class o h = absurd h
kept-IsGranted backing_store o h = absurd h
kept-IsGranted namespace_store o h = absurd h
kept-IsGranted object_bucket_claim o h = absurd h
kept-IsGranted deployment o h = absurd h
kept-IsGranted stateful_set o h = absurd h
kept-IsGranted cluster_version o h = absurd h
kept-IsGranted _ o h = (refl, λ e. cc)

upkeep-IsGranted : (q : Request) → IsUpkeep q → IsGranted q
upkeep-IsGranted (create_request k o) h = made-IsGranted k o h
upkeep-IsGranted (update_request k o) h = kept-IsGranted k o h
upkeep-IsGranted (delete_request k o) h = absurd h
upkeep-IsGranted (status_request k o) h = absurd h

removal-IsGranted : (q : Request) → IsRemoval q → IsGranted q
unfolding is_granted is_granted_everywhere
removal-IsGranted (delete_request bucket_class o) h = (refl, λ e. cc)
removal-IsGranted (delete_request noobaa o) h = (refl, λ e. cc)
removal-IsGranted (delete_request backing_store o) h = (refl, λ e. cc)
removal-IsGranted (delete_request namespace_store o) h = (refl, λ e. cc)
removal-IsGranted (update_request noobaa o) h = (refl, λ e. cc)
removal-IsGranted _ h = absurd h

claim-IsGranted : (q : Request) → IsClaim q → IsGranted q
unfolding is_granted is_granted_everywhere
claim-IsGranted (create_request object_bucket_claim o) h = (refl, λ e. refl)
claim-IsGranted (update_request object_bucket_claim o) h = (refl, λ e. refl)
claim-IsGranted _ h = absurd h

Owned-IsGranted : (q : Request) → Owned q → IsGranted q
unfolding is_granted is_granted_everywhere
Owned-IsGranted q (kept u) = upkeep-IsGranted q u
Owned-IsGranted q (removed u) = removal-IsGranted q u
Owned-IsGranted q (claimed u) = claim-IsGranted q u
Owned-IsGranted _ claim_deleted = (refl, λ e. refl)
Owned-IsGranted _ (created f) = (refl, λ e. cc)
Owned-IsGranted _ marked = (refl, λ e. cc)
Owned-IsGranted _ retired = (refl, λ e. cc)
Owned-IsGranted _ reported = (refl, λ e. cc)
Owned-IsGranted _ (uninstalled p) = (refl, λ e. cc)

-- In every history, the markers of the source ask for the verb of each write request on the resource of
-- its kind. For objects of the kinds outside namespaces, and for the creation and the deletion of claims,
-- which stand in the namespaces that bucket classes name, a marker asks for that in all namespaces. For
-- the update of a claim none does: it is granted in the operator's namespace and refused in any other.
-- The objects of all other kinds are taken to stand in the operator's namespace, and reads are not
-- part of it.
pub History-IsGranted :
    (P : Platform) (L : IsLawful P) (c : Config) {w v : Reconciler × P.State}
    → History P L c w v
    → Extends IsGranted (L.log w.1) (L.log v.1)
History-IsGranted P L c h = Extends-weaken Owned-IsGranted (History-Owned P L c h)
