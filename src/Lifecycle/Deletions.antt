-- ===== src/Lifecycle/Deletions.antt =====
-- The loops of `removeNoobaa` of controllers/managedmcg_controller.go that delete objects one by one.
use mcg_osd_deployer.Base.{◌≡◌, refl, ◌∙◌, sym, ap, String, List, [], ◌∷◌}
use mcg_osd_deployer.Exec.{ok, pure, for_each}
use mcg_osd_deployer.Exec.Runs.{bind-ok}
use mcg_osd_deployer.Cluster.Objects.{Kind, Resource}
use mcg_osd_deployer.Cluster.Platform.{Platform, IsLawful, Request, delete_request}
use mcg_osd_deployer.Controller.Reconciler.{Reconciler}
use mcg_osd_deployer.Controller.Calls.{M}
use mcg_osd_deployer.Controller.Uninstall.{set_name}

-- The API server grants every update and every deletion.
pub record Grants (P : Platform) : Type 0 where
  pub updated :
      (k : Kind) (o : Resource k) (s : P.State) → (o' : Resource k) × ((P.update k o s).0 ≡ ok o')
  pub deleted : (k : Kind) (o : Resource k) (s : P.State) → (P.delete k o s).0 ≡ ok tt

-- The log after the deletion of each item, by its name, through the object `o`.
abbrev pub deletions : {k : Kind} → List (Resource k) → Resource k → List Request → List Request
deletions [] o log = log
deletions {k} (item ∷ rest) o log =
    deletions rest o (delete_request k (set_name item.metadata.name o) ∷ log)

deletions_named :
    {k : Kind} (items : List (Resource k)) (name : String) (o : Resource k) (log : List Request)
    → deletions items (set_name name o) log ≡ deletions items o log
unfolding set_name
deletions_named [] name o log = refl
deletions_named (item ∷ rest) name o log = deletions_named rest name o _

-- A loop that deletes each item through an object which is a field of the reconciler.
module _ (P : Platform) (L : IsLawful P) (k : Kind) (field : Reconciler → Resource k)
    (set_field : Resource k → Reconciler → Reconciler) (body : Resource k → M P (Unit {0}))
    (field-set : (o : Resource k) (r : Reconciler) → field (set_field o r) ≡ o)
    (set-field : (r : Reconciler) → set_field (field r) r ≡ r)
    (set_twice : (o o' : Resource k) (r : Reconciler)
      → set_field o (set_field o' r) ≡ set_field o r)
    (body-run : (item : Resource k) (r : Reconciler) (s : P.State)
      → let o = set_name item.metadata.name (field r) in
        body item (r, s) ≡ (ok tt, (set_field o r, (P.delete k o s).1))) where
  pub deletions_run :
      (items : List (Resource k)) (r : Reconciler) (s : P.State)
      → (o : Resource k) × (s' : P.State) × (for_each body items (r, s)
          ≡ (ok tt, (set_field o r, s')))
        × (L.log s' ≡ deletions items (field r) (L.log s))
  unfolding for_each pure
  deletions_run [] r s = (field r, s, λ i. (ok tt, (sym (set-field r) i, s)), refl)
  deletions_run (item ∷ rest) r s =
      let o₁ = set_name item.metadata.name (field r) in
      let (o, s', run, log) = deletions_run rest (set_field o₁ r) (P.delete k o₁ s).1 in
      (
        o,
        s',
        bind-ok (body item) _ (body-run item r s) ∙ run ∙ (λ i. (ok tt, (set_twice o o₁ r i, s'))),
        log
            ∙ ap (λ x. deletions rest x (L.log (P.delete k o₁ s).1)) (field-set o₁ r)
            ∙ ap (deletions rest o₁) (L.log-delete k o₁ s)
            ∙ deletions_named rest item.metadata.name (field r) _,
      )
