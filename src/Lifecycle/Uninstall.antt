-- ===== src/Lifecycle/Uninstall.antt =====
-- `removeOLMComponents` deletes no CSV but one whose name has the operator's prefix.
use mcg_osd_deployer.Base.{◌≡◌, refl, ap, true, List, ◌⊎◌, inl, inr, starts_with}
use mcg_osd_deployer.Exec.{Error, Outcome, ok, err, panic, caught, caught_outcome, pure}
use mcg_osd_deployer.Exec.Runs.{bind_split}
use mcg_osd_deployer.Cluster.Objects.{Resource, cluster_service_version}
use mcg_osd_deployer.Cluster.Platform.{Platform, IsLawful, Request, delete_request}
use mcg_osd_deployer.Controller.Reconciler.{Reconciler, deployer_csv_prefix}
use mcg_osd_deployer.Controller.Calls.{get_csv_by_prefix}
use mcg_osd_deployer.Controller.Calls.Prefix.{get_csv_by_prefix_lem}
use mcg_osd_deployer.Controller.Uninstall.{delete_found, remove_olm_components}
use mcg_osd_deployer.Exec.Keeps.{Keeps-wrapping, Keeps-caught}
use mcg_osd_deployer.Safety.Within.{Within, Keeps-get_csv_by_prefix, Keeps-delete}

module _ (P : Platform) where
  caught_inr : {A : Type 0} (m : Outcome A) {a : A} → caught_outcome m ≡ ok (inr a) → m ≡ ok a
  caught_inr (ok b) h = cc
  caught_inr (err e) h = cc
  caught_inr (panic why) h = cc

module _ (P : Platform) (L : IsLawful P) (A : Request → Type 0) (base : List Request)
    (may : (o : Resource cluster_service_version)
      → starts_with o.metadata.name deployer_csv_prefix ≡ true
      → A (delete_request cluster_service_version o)) where
  delete_found-Within :
      (x : Error ⊎ Resource cluster_service_version) (w : Reconciler × P.State)
      → ((o : Resource cluster_service_version)
          → x ≡ inr o
          → starts_with o.metadata.name deployer_csv_prefix ≡ true)
      → Within P L A base w
      → Within P L A base (delete_found P x w).1
  unfolding delete_found pure
  delete_found-Within (inl e) w k h = h
  delete_found-Within (inr csv) w k h =
      (Keeps-wrapping _ _
          (Keeps-delete P L A base cluster_service_version csv (may csv (k csv refl)))).at
        w h

  -- The removal of the operator, with the deletions of CSVs of its prefix permitted.
  pub remove_olm-Within :
      (w : Reconciler × P.State)
      → Within P L A base w
      → Within P L A base (remove_olm_components P w).1
  unfolding remove_olm_components caught
  remove_olm-Within w h =
      let got = (Keeps-caught _ (Keeps-get_csv_by_prefix P L A base deployer_csv_prefix)).at w h in
      bind_split (Within P L A base) (caught (get_csv_by_prefix P deployer_csv_prefix)) _ w
        (λ x e. delete_found-Within x _ (λ o same. found-prefix w o (rw same at e)) got) got
    where
      found-prefix :
          (w : Reconciler × P.State) (o : Resource cluster_service_version)
          {w' : Reconciler × P.State}
          → caught (get_csv_by_prefix P deployer_csv_prefix) w ≡ (ok (inr o), w')
          → starts_with o.metadata.name deployer_csv_prefix ≡ true
      found-prefix w o e =
          get_csv_by_prefix_lem P deployer_csv_prefix w (caught_inr P _ (ap (λ y. y.0) e))
