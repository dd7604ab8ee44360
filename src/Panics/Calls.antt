-- ===== src/Panics/Calls.antt =====
-- The calls of the reconciler never panic, if those of the platform do not.
use mcg_osd_deployer.Base.{
  ℕ, ◌≡◌, ap, subst, String, Bool, Option, none, some, List, [], ◌∷◌, All, ◌⊎◌, inl, inr, true,
  starts_with, is_some, Bool-cases,
}
use mcg_osd_deployer.Exec.{Error, Outcome, ok, err, panic, Exec, wrapping, pure, raise}
use mcg_osd_deployer.Exec.Runs.{bind_inv, wrapping_inv}
use mcg_osd_deployer.Exec.Calm.{IsCalm, Calm, Calm-wrapping, calm_rules}
use mcg_osd_deployer.Cluster.Meta.{ObjectMeta}
use mcg_osd_deployer.Cluster.Objects.{Kind, Resource, managed_mcg, cluster_service_version}
use mcg_osd_deployer.Cluster.Platform.{Platform}
use mcg_osd_deployer.Controller.Reconciler.{Reconciler, deployer_csv_prefix}
use mcg_osd_deployer.Controller.Calls.{
  M, on_cluster, this, modify, get, client_get, list, update, delete, own, get_csv_by_prefix,
  found_csv, first_with_prefix, tolerate, owned,
}
use mcg_osd_deployer.Controller.Storage.Scaling.{HasReplicas}
use mcg_osd_deployer.Controller.Monitoring.Metrics.{deployer_deployment}

-- The calls of the platform answer with a value or an error, and run callbacks that do.
pub record Behaves (P : Platform) : Type 1 where
  pub listing : (k : Kind) (n : Option String) → Calm (P.list k n)
  pub creating : (k : Kind) (o : Resource k) → Calm (P.create k o)
  pub updating : (k : Kind) (o : Resource k) → Calm (P.update k o)
  pub deleting : (k : Kind) (o : Resource k) → Calm (P.delete k o)
  pub reporting : (o : Resource managed_mcg) → Calm (P.update_status o)
  pub applying :
      {R : Type 0} (k : Kind) (o : Resource k) (f : Resource k → Exec (R × P.State) (Resource k))
      → ((o : Resource k) → Calm (f o))
      → Calm (P.create_or_update k o f)
  pub polling :
      (interval timeout : ℕ) (condition : Exec P.State Bool)
      → Calm condition
      → Calm (P.poll_immediate interval timeout condition)

-- What the source reads through pointers is there: the operator's own deployment in the operator's
-- CSV, and the replicas of the deployments that are scaled down in the OCS operator's.
pub record IsComplete (csv : Resource cluster_service_version) : Type 0 where
  pub deployed :
      starts_with csv.metadata.name deployer_csv_prefix ≡ true
      → is_some (deployer_deployment none csv.body) ≡ true
  pub replicas : starts_with csv.metadata.name "ocs-operator" ≡ true → All HasReplicas csv.body

-- Every CSV that the API server lists is complete.
abbrev pub ListsComplete : Platform → Type 0
ListsComplete P =
    (n : Option String) (s : P.State) (items : List (Resource cluster_service_version))
    → (P.list cluster_service_version n s).0 ≡ ok items
    → All IsComplete items

module _ (P : Platform) (B : Behaves P) where
  pub Calm-this : Calm (this P)
  unfolding this
  Calm-this = record { at = λ w. tt }

  pub Calm-modify : (f : Reconciler → Reconciler) → Calm (modify P f)
  unfolding modify
  Calm-modify f = record { at = λ w. tt }

  pub Calm-get : (k : Kind) (o : Resource k) → Calm (get P k o)
  unfolding get
  Calm-get k o = record { at = λ w. tt }

  pub Calm-client_get : (k : Kind) (o : Resource k) → Calm (client_get P k o)
  unfolding client_get
  Calm-client_get k o = record { at = λ w. tt }

  pub Calm-on_cluster : {A : Type 0} (m : Exec P.State A) → Calm m → Calm (on_cluster P m)
  unfolding on_cluster
  Calm-on_cluster m k = record { at = λ (r, s). k.at s }

  pub Calm-list : (k : Kind) → Calm (list P k)
  unfolding list
  Calm-list k = record {
    at = λ (r, s).
        (Calm-wrapping "error listing" _ (Calm-on_cluster _ (B.listing k (some r.namespace)))).at
          (r, s);
  }

  pub Calm-update : (k : Kind) (o : Resource k) → Calm (update P k o)
  unfolding update
  Calm-update k o = Calm-wrapping _ _ (Calm-on_cluster _ (B.updating k o))

  tolerate-IsCalm : (x : Outcome (Unit {0})) → IsCalm x → IsCalm (tolerate P x)
  tolerate-IsCalm (ok u) h = tt
  tolerate-IsCalm (err e) h = elim (Bool-cases (P.is_not_found e)) [
    | inl t ↦ rw t tt
    | inr f ↦ rw f tt
  ]
  tolerate-IsCalm (panic p) h = h

  pub Calm-delete : (k : Kind) (o : Resource k) → Calm (delete P k o)
  unfolding delete
  Calm-delete k o = record {
    at = λ (r, s). tolerate-IsCalm (P.delete k o s).0 ((B.deleting k o).at s);
  }

  owned-IsCalm : {k : Kind} (o : Resource k) (x : Error ⊎ ObjectMeta) → IsCalm (owned P o x)
  owned-IsCalm o (inl e) = tt
  owned-IsCalm o (inr m) = tt

  pub Calm-own : {k : Kind} (o : Resource k) → Calm (own P o)
  unfolding own
  Calm-own o = record { at = λ (r, s). owned-IsCalm o _ }

  Calm-found_csv : (o : Option (Resource cluster_service_version)) → Calm (found_csv P o)
  Calm-found_csv none = search calm_rules
  Calm-found_csv (some csv) = search calm_rules

  pub Calm-get_csv_by_prefix : (name : String) → Calm (get_csv_by_prefix P name)
  unfolding get_csv_by_prefix
  Calm-get_csv_by_prefix name = search (calm_rules, Calm-list, Calm-found_csv)

  pub Calm-create_or_update :
      (k : Kind) (o : Resource k) (f : Resource k → M P (Resource k))
      → ((o : Resource k) → Calm (f o))
      → Calm (P.create_or_update k o f)
  Calm-create_or_update k o f kf = B.applying k o f kf

  pub Calm-list_in : (k : Kind) (n : Option String) → Calm (on_cluster P (P.list k n))
  Calm-list_in k n = Calm-on_cluster _ (B.listing k n)

  pub Calm-update_in : (k : Kind) (o : Resource k) → Calm (on_cluster P (P.update k o))
  Calm-update_in k o = Calm-on_cluster _ (B.updating k o)

  pub Calm-poll :
      (interval timeout : ℕ) (condition : Exec P.State Bool)
      → Calm condition
      → Calm (on_cluster P (P.poll_immediate interval timeout condition))
  Calm-poll interval timeout condition k =
      Calm-on_cluster _ (B.polling interval timeout condition k)

pub ruleset call_rules = (
  calm_rules, Calm-this, Calm-modify, Calm-get, Calm-client_get, Calm-list, Calm-list_in,
  Calm-update, Calm-delete, Calm-update_in, Calm-own, Calm-create_or_update, Calm-get_csv_by_prefix,
)

first_with_prefix-IsComplete :
    (name : String) (items : List (Resource cluster_service_version))
    (o : Resource cluster_service_version)
    → All IsComplete items
    → first_with_prefix name items ≡ some o
    → IsComplete o
unfolding first_with_prefix
first_with_prefix-IsComplete name [] o h e = cc
first_with_prefix-IsComplete name (item ∷ rest) o (h, hs) e =
    elim (Bool-cases (starts_with item.metadata.name name)) [
      | inl t ↦
          let same : some item ≡ some o = rw t at e in
          let path : item ≡ o = cc same in subst IsComplete path h
      | inr f ↦ first_with_prefix-IsComplete name rest o hs (rw f at e)
    ]

module _ (P : Platform) (complete : ListsComplete P) where
  list-IsComplete :
      (w : Reconciler × P.State) (items : List (Resource cluster_service_version))
      → (wrapping "unable to list csv resources" (list P cluster_service_version) w).0 ≡ ok items
      → All IsComplete items
  unfolding list on_cluster
  list-IsComplete (r, s) items e =
      let w : Reconciler × P.State = (r, s) in
      let listed =
        wrapping_inv "unable to list csv resources" (list P cluster_service_version) w e in
      complete (some r.namespace) s items (
        wrapping_inv "error listing"
          (on_cluster P (P.list cluster_service_version (some r.namespace))) w listed)

  found_csv-some :
      (x : Option (Resource cluster_service_version)) (w : Reconciler × P.State)
      {csv : Resource cluster_service_version}
      → (found_csv P x w).0 ≡ ok csv
      → x ≡ some csv
  unfolding pure raise
  found_csv-some none w h = cc
  found_csv-some (some o) w h = cc

  -- The CSV that is found is complete.
  pub get_csv_by_prefix-IsComplete :
      (name : String) (w : Reconciler × P.State) {csv : Resource cluster_service_version}
      → (get_csv_by_prefix P name w).0 ≡ ok csv
      → IsComplete csv
  unfolding get_csv_by_prefix
  get_csv_by_prefix-IsComplete name w {csv} h =
      let (items, e, f) = bind_inv _ _ w h in
      first_with_prefix-IsComplete name items csv (list-IsComplete w items (ap (λ x. x.0) e))
        (found_csv-some _ _ f)
