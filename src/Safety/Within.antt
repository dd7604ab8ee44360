-- ===== src/Safety/Within.antt =====
-- Programs whose write requests all satisfy a predicate `A`: one rule for each call of the
-- reconciler.
use mcg_osd_deployer.Base.{ℕ, String, Bool, Option, none, some, List, ◌∷◌}
use mcg_osd_deployer.Exec.{Exec}
use mcg_osd_deployer.Exec.Keeps.{
  Keeps, Keeps-pure, Keeps-raise, Keeps-wrapping, Keeps-bind, keeps_rules,
}
use mcg_osd_deployer.Cluster.Objects.{Kind, Resource, cluster_service_version}
use mcg_osd_deployer.Cluster.Platform.{
  Platform, IsLawful, Request, create_request, update_request, delete_request,
}
use mcg_osd_deployer.Controller.Reconciler.{Reconciler}
use mcg_osd_deployer.Controller.Calls.{
  M, on_cluster, this, modify, get, client_get, list, update, delete, own, get_csv_by_prefix,
  or_panics, found_csv,
}

-- The log is `base`, the requests before, and on top of it requests that satisfy `A`.
pub data Extends (A : Request → Type 0) (base : List Request) : List Request → Type 0 where
  start : Extends A base base
  more : {q : Request} {log : List Request} → A q → Extends A base log → Extends A base (q ∷ log)

module _ (P : Platform) (L : IsLawful P) (A : Request → Type 0) (base : List Request) where
  abbrev pub Within : Reconciler × P.State → Type 0
  Within (r, s) = Extends A base (L.log s)

  pub Keeps-this : Keeps Within (this P)
  unfolding this
  Keeps-this = record { at = λ (r, s) h. h }

  pub Keeps-modify : (f : Reconciler → Reconciler) → Keeps Within (modify P f)
  unfolding modify
  Keeps-modify f = record { at = λ (r, s) h. h }

  pub Keeps-get : (k : Kind) (o : Resource k) → Keeps Within (get P k o)
  unfolding get
  Keeps-get k o = record { at = λ (r, s) h. rw (L.log-get k o s) h }

  pub Keeps-client_get : (k : Kind) (o : Resource k) → Keeps Within (client_get P k o)
  unfolding client_get
  Keeps-client_get k o = record { at = λ (r, s) h. rw (L.log-get k o s) h }

  pub Keeps-list : (k : Kind) → Keeps Within (list P k)
  unfolding list
  Keeps-list k = record { at = λ (r, s) h. rw (L.log-list k (some r.namespace) s) h }

  pub Keeps-list_in : (k : Kind) (n : Option String) → Keeps Within (on_cluster P (P.list k n))
  unfolding on_cluster
  Keeps-list_in k n = record { at = λ (r, s) h. rw (L.log-list k n s) h }

  pub Keeps-update :
      (k : Kind) (o : Resource k) → A (update_request k o) → Keeps Within (update P k o)
  unfolding update
  Keeps-update k o a = record { at = λ (r, s) h. rw (L.log-update k o s) (more a h) }

  pub Keeps-delete :
      (k : Kind) (o : Resource k) → A (delete_request k o) → Keeps Within (delete P k o)
  unfolding delete
  Keeps-delete k o a = record { at = λ (r, s) h. rw (L.log-delete k o s) (more a h) }

  pub Keeps-update_in :
      (k : Kind) (o : Resource k)
      → A (update_request k o)
      → Keeps Within (on_cluster P (P.update k o))
  unfolding on_cluster
  Keeps-update_in k o a = record { at = λ (r, s) h. rw (L.log-update k o s) (more a h) }

  pub Keeps-own : {k : Kind} (o : Resource k) → Keeps Within (own P o)
  unfolding own
  Keeps-own o = record { at = λ (r, s) h. h }

  pub Keeps-or_panics : {B : Type 0} (o : Option B) → Keeps Within (or_panics P o)
  Keeps-or_panics none = search keeps_rules
  Keeps-or_panics (some b) = search keeps_rules

  pub Keeps-poll :
      (interval timeout : ℕ) (condition : Exec P.State Bool)
      → Keeps (λ s. Extends A base (L.log s)) condition
      → Keeps Within (on_cluster P (P.poll_immediate interval timeout condition))
  unfolding on_cluster
  Keeps-poll interval timeout condition k = record {
    at = λ (r, s) h. (L.poll_immediate-Keeps _ interval timeout condition k).at s h;
  }

  pub Keeps-create_or_update :
      (k : Kind) (o : Resource k) (f : Resource k → M P (Resource k))
      → ((o : Resource k) → A (create_request k o))
      → ((o : Resource k) → A (update_request k o))
      → ((o : Resource k) → Keeps Within (f o))
      → Keeps Within (P.create_or_update k o f)
  Keeps-create_or_update k o f a b kf =
      L.create_or_update-Keeps Within k o f kf (λ o r s h. rw (L.log-get k o s) h)
        (λ o r s h. rw (L.log-create k o s) (more (a o) h))
        (λ o r s h. rw (L.log-update k o s) (more (b o) h))

  Keeps-found_csv : (o : Option (Resource cluster_service_version)) → Keeps Within (found_csv P o)
  Keeps-found_csv none = search keeps_rules
  Keeps-found_csv (some csv) = search keeps_rules

  pub Keeps-get_csv_by_prefix : (name : String) → Keeps Within (get_csv_by_prefix P name)
  unfolding get_csv_by_prefix
  Keeps-get_csv_by_prefix name = search (keeps_rules, Keeps-list, Keeps-found_csv)

pub ruleset within_rules = (
  keeps_rules, Keeps-this, Keeps-modify, Keeps-get, Keeps-client_get, Keeps-list, Keeps-list_in,
  Keeps-update, Keeps-delete, Keeps-update_in, Keeps-own, Keeps-or_panics, Keeps-create_or_update,
  Keeps-get_csv_by_prefix,
)
