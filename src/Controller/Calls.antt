-- ===== src/Controller/Calls.antt =====
-- The reconciler's own access to the API server: `get`, `list`, `update`, `delete`, `own` and
-- `getCSVByPrefix`.
pub mod Prefix
use mcg_osd_deployer.Base.{
  String, Option, none, some, List, [], ◌∷◌, ◌⊎◌, inl, inr, starts_with, if◌then◌else◌,
}
use mcg_osd_deployer.Exec.{
  Error, errorf, wrapf, Outcome, ok, err, panic, Exec, pure, raise, panics, wrapping, ◌>>=◌,
}
use mcg_osd_deployer.Cluster.Meta.{ObjectMeta}
use mcg_osd_deployer.Cluster.Objects.{Kind, Resource, cluster_service_version}
use mcg_osd_deployer.Cluster.Platform.{Platform}
use mcg_osd_deployer.Controller.Reconciler.{Reconciler}

-- `for i := range items { if strings.HasPrefix(items[i].Name, name) { ...; break } }`
unfoldable pub first_with_prefix : {k : Kind} → String → List (Resource k) → Option (Resource k)
first_with_prefix name [] = none
first_with_prefix name (item ∷ rest) =
    if starts_with item.metadata.name name then some item else first_with_prefix name rest

abbrev pub wrap_error : String → Option Error → Option Error
wrap_error why none = none
wrap_error why (some e) = some (wrapf why e)

module _ (P : Platform) where
  abbrev pub M : Type 0 → Type 0
  M A = Exec (Reconciler × P.State) A

  -- An index out of range, or an assignment to a nil map, is `none` and panics.
  abbrev pub or_panics : {A : Type 0} → Option A → M A
  or_panics none = panics "runtime error"
  or_panics (some a) = pure a

  -- A call of the platform, which leaves the reconciler's fields alone.
  unfoldable pub on_cluster : {A : Type 0} → Exec P.State A → M A
  on_cluster m (r, s) = let (x, s') = m s in (x, (r, s'))

  unfoldable pub this : M Reconciler
  this (r, s) = (ok r, (r, s))

  unfoldable pub modify : (Reconciler → Reconciler) → M (Unit {0})
  modify f (r, s) = (ok tt, (f r, s))

  -- `r.Client.Get`, with the error as it comes.
  unfoldable pub client_get : (k : Kind) → Resource k → M (Option Error × Resource k)
  client_get k obj (r, s) = let (x, s') = P.get k obj s in (ok x, (r, s'))

  -- The error, if there is one, and the object after the call.
  unfoldable pub get : (k : Kind) → Resource k → M (Option Error × Resource k)
  get k obj (r, s) =
      let ((e, obj'), s') = P.get k obj s in (ok (wrap_error "error getting" e, obj'), (r, s'))

  -- All objects of a kind in the reconciler's namespace.
  unfoldable pub list : (k : Kind) → M (List (Resource k))
  unfolding on_cluster wrapping
  list k (r, s) = wrapping "error listing" (on_cluster (P.list k (some r.namespace))) (r, s)

  unfoldable pub update : (k : Kind) → Resource k → M (Resource k)
  unfolding on_cluster wrapping
  update k obj = wrapping "error updating" (on_cluster (P.update k obj))

  -- An object that is gone already counts as deleted.
  abbrev pub tolerate : Outcome (Unit {0}) → Outcome (Unit {0})
  tolerate (ok u) = ok u
  tolerate (err e) = if P.is_not_found e then ok tt else err (wrapf "failed to delete" e)
  tolerate (panic p) = panic p

  unfoldable pub delete : (k : Kind) → Resource k → M (Unit {0})
  delete k obj (r, s) = let (x, s') = P.delete k obj s in (tolerate x, (r, s'))

  abbrev pub owned : {k : Kind} → Resource k → Error ⊎ ObjectMeta → Outcome (Resource k)
  owned obj (inl e) = err (wrapf "failed to set controller reference" e)
  owned obj (inr m) = ok (record obj { metadata = m })

  unfoldable pub own : {k : Kind} → Resource k → M (Resource k)
  own obj (r, s) = (owned obj (P.set_controller_reference r.managed.metadata obj.metadata), (r, s))

  abbrev pub found_csv :
      Option (Resource cluster_service_version) → M (Resource cluster_service_version)
  found_csv none = raise (errorf "unable to get csv resources")
  found_csv (some csv) = pure csv

  unfoldable pub get_csv_by_prefix : String → M (Resource cluster_service_version)
  unfolding list
  get_csv_by_prefix name = do
    items ← wrapping "unable to list csv resources" (list cluster_service_version)
    found_csv (first_with_prefix name items)
