-- ===== src/Controller/Calls/Prefix.antt =====
-- The CSV that `getCSVByPrefix` of controllers/managedmcg_controller.go returns.
use mcg_osd_deployer.Base.{
  ◌≡◌, ap, ◌∙◌, String, true, Option, none, some, List, [], ◌∷◌, inl, inr, starts_with, Bool-cases,
}
use mcg_osd_deployer.Exec.{ok, pure, raise, wrapping}
use mcg_osd_deployer.Exec.Runs.{bind_inv, bind-ok, wrapping_inv}
use mcg_osd_deployer.Cluster.Objects.{Kind, Resource, cluster_service_version}
use mcg_osd_deployer.Cluster.Platform.{Platform}
use mcg_osd_deployer.Controller.Reconciler.{Reconciler}
use mcg_osd_deployer.Controller.Calls.{
  M, list, on_cluster, first_with_prefix, found_csv, get_csv_by_prefix,
}

first_with_prefix_lem :
    {k : Kind} (name : String) (items : List (Resource k)) {o : Resource k}
    → first_with_prefix name items ≡ some o
    → starts_with o.metadata.name name ≡ true
unfolding first_with_prefix
first_with_prefix_lem name [] h = cc
first_with_prefix_lem name (item ∷ rest) {o} h =
    elim (Bool-cases (starts_with item.metadata.name name)) [
      | inl t ↦ let same : some item ≡ some o = rw t at h in cc (same, t)
      | inr f ↦ first_with_prefix_lem name rest (rw f at h)
    ]

module _ (P : Platform) where
  found_csv_lem :
      (x : Option (Resource cluster_service_version)) {csv : Resource cluster_service_version}
      (w : Reconciler × P.State)
      → (found_csv P x w).0 ≡ ok csv
      → x ≡ some csv
  unfolding pure raise
  found_csv_lem none w h = cc
  found_csv_lem (some o) w h = cc

  -- The CSV that is found has the prefix.
  pub get_csv_by_prefix_lem :
      (name : String) (w : Reconciler × P.State) {csv : Resource cluster_service_version}
      → (get_csv_by_prefix P name w).0 ≡ ok csv
      → starts_with csv.metadata.name name ≡ true
  unfolding get_csv_by_prefix
  get_csv_by_prefix_lem name w h =
      let (items, e, f) = bind_inv _ _ w h in first_with_prefix_lem name items (found_csv_lem _ _ f)

  -- The CSV that is returned is the first one with the prefix of those that the API server lists in the
  -- namespace, and the list is the only call.
  pub get_csv_by_prefix_listed :
      (name : String) (r : Reconciler) (s : P.State) {csv : Resource cluster_service_version}
      → (get_csv_by_prefix P name (r, s)).0 ≡ ok csv
      → let (x, s') = P.list cluster_service_version (some r.namespace) s in
        (items : List (Resource cluster_service_version)) × (x ≡ ok items)
        × (first_with_prefix name items ≡ some csv)
        × ((get_csv_by_prefix P name (r, s)).1 ≡ (r, s'))
  unfolding get_csv_by_prefix list wrapping on_cluster pure
  get_csv_by_prefix_listed name r s {csv} h =
      let listing = wrapping "unable to list csv resources" (list P cluster_service_version) in
      let f : List (Resource cluster_service_version) → M P (Resource cluster_service_version) =
        λ items. found_csv P (first_with_prefix name items) in
      let (items, e, g) = bind_inv listing f (r, s) h in
      let found = found_csv_lem (first_with_prefix name items) _ g in
      let (x, s') = P.list cluster_service_version (some r.namespace) s in
      let calls = on_cluster P (P.list cluster_service_version (some r.namespace)) in
      (
        items,
        wrapping_inv "error listing" calls (r, s)
            (wrapping_inv "unable to list csv resources" (list P cluster_service_version) (r, s)
              (ap (λ y. y.0) e)),
        found,
        ap (λ y. y.1) (bind-ok listing f e ∙ ap (λ o. found_csv P o (r, s')) found),
      )
