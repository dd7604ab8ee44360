-- ===== src/Safety/Claims.antt =====
-- controllers/mcg_bucket.go: what becomes of a claim that is already there.
use mcg_osd_deployer.Base.{◌≡◌, refl, not, is_some, Bool, true, false, ◌∙◌, none, List}
use mcg_osd_deployer.Exec.{◌>>=◌, pure, when}
use mcg_osd_deployer.Exec.Keeps.{Keeps}
use mcg_osd_deployer.Exec.Runs.{bind_split}
use mcg_osd_deployer.Cluster.Meta.{get_key}
use mcg_osd_deployer.Cluster.Objects.{Resource, bucket_class, object_bucket_claim}
use mcg_osd_deployer.Cluster.Platform.{Platform, IsLawful, Request}
use mcg_osd_deployer.Controller.Reconciler.{Reconciler}
use mcg_osd_deployer.Controller.Calls.{M, get}
use mcg_osd_deployer.Controller.Bucket.{
  mcgms_obc_namespace, new_object_bucket_claim, bucket_class_ready,
  is_bucket_class_creation_success, get_object_bucket_claim, create_claim, bucket_class_added,
}
use mcg_osd_deployer.Safety.Within.{Extends, start, more, Within, Keeps-poll, within_rules}

abbrev IsNothing : Request → Type 0
IsNothing q = ⊥

Extends-nothing : (base log : List Request) → Extends IsNothing base log → log ≡ base
Extends-nothing base log start = refl
Extends-nothing base log (more a h) = elim a [ ]

module _ (P : Platform) (L : IsLawful P) (A : Request → Type 0) (base : List Request) where
  class_ready-Keeps :
      (bc : Resource bucket_class) → Keeps (λ s. Extends A base (L.log s)) (bucket_class_ready P bc)
  unfolding bucket_class_ready
  class_ready-Keeps bc = record { at = λ s h. rw L.log-get h }

  -- Whether a bucket class is ready is found out without a write.
  pub success-Keeps :
      (bc : Resource bucket_class)
      → Keeps (Within P L A base) (is_bucket_class_creation_success P bc)
  unfolding is_bucket_class_creation_success
  success-Keeps bc = search (within_rules, Keeps-poll, class_ready-Keeps) depth 12

module _ (P : Platform) (L : IsLawful P) (bc : Resource bucket_class) where
  -- The part after the class is found to be ready or not.
  abbrev rest : Bool → M P (Unit {0})
  rest success =
      when success do
        existing ← get_object_bucket_claim P bc
        when (not (is_some existing)) (create_claim P bc)

  rest-log :
      (success : Bool) (w : Reconciler × P.State)
      → (P.get object_bucket_claim (new_object_bucket_claim bc) w.1).0.0 ≡ none
      → L.log (rest success w).1.1 ≡ L.log w.1
  unfolding get_object_bucket_claim get ◌>>=◌ pure
  rest-log true w found = rw (found, L.log-get) refl
  rest-log false w found = refl

  annotated-log :
      (annotated : Bool) (w : Reconciler × P.State)
      → let s' = (is_bucket_class_creation_success P bc w).1.1 in
        (P.get object_bucket_claim (new_object_bucket_claim bc) s').0.0 ≡ none
        → L.log (when annotated (is_bucket_class_creation_success P bc >>= rest) w).1.1 ≡ L.log w.1
  unfolding pure
  annotated-log true w found =
      let w' = (is_bucket_class_creation_success P bc w).1 in
      let kept : L.log w'.1 ≡ L.log w.1 =
        Extends-nothing _ _ ((success-Keeps P L IsNothing (L.log w.1) bc).at w start) in
      bind_split (λ v. L.log v.1 ≡ L.log w.1) (is_bucket_class_creation_success P bc) rest w
        (λ success e. rest-log success w' found ∙ kept) kept
  annotated-log false w found = refl

-- Where the lookup of the claim of a bucket class finds one, at the time at which the handler of a new
-- bucket class makes it, after it has found out whether the class is ready, the handler sends no
-- request, whatever the claim holds and whatever else the API server answers.
pub existing_claim_kept :
    (P : Platform) (L : IsLawful P) (bc : Resource bucket_class) (r : Reconciler) (s : P.State)
    → let s' = (is_bucket_class_creation_success P bc (r, s)).1.1 in
      (P.get object_bucket_claim (new_object_bucket_claim bc) s').0.0 ≡ none
      → L.log (bucket_class_added P bc (r, s)).1.1 ≡ L.log s
unfolding bucket_class_added
existing_claim_kept P L bc r s found =
    annotated-log P L bc (is_some (get_key mcgms_obc_namespace bc.metadata.annotations)) (r, s)
      found
