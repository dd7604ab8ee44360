-- ===== src/Controller/Bucket/Claims.antt =====
-- Which claim a bucket class gets, and which one goes with it.
use mcg_osd_deployer.Base.{
  ◌≡◌, refl, ap, subst, ◌∙◌, ◌==◌, String, Bool, true, false, some, List, [], ◌∷◌, if◌then◌else◌,
  starts_with, arith,
}
use mcg_osd_deployer.Exec.{Error, pure, caught, ◌>>=◌}
use mcg_osd_deployer.Exec.Runs.{bind-pure}
use mcg_osd_deployer.Cluster.Platform.{Platform, IsLawful, delete_request}
use mcg_osd_deployer.Cluster.Zero.{fresh}
use mcg_osd_deployer.Controller.Reconciler.{Reconciler}
use mcg_osd_deployer.Controller.Setup.{bucket_class_delete_predicate}
use mcg_osd_deployer.Controller.Calls.{get, delete}
use mcg_osd_deployer.Cluster.Meta.{get_key}
use mcg_osd_deployer.Cluster.Objects.{Resource, bucket_class, backing_store, object_bucket_claim}
use mcg_osd_deployer.Controller.Bucket.{
  bucket_class_added, is_bucket_class_creation_success, get_object_bucket_claim, create_claim,
  bucket_class_deleted, claim_as, phase_ready, mcgms_obc_namespace, default_backing_store,
  new_object_bucket_claim, set_obc_desired_state, get_obc_creation_namespace, pick_backing_store,
  choose_backing_store,
}

caught_log :
    (P : Platform) (L : IsLawful P) (claim : Resource object_bucket_claim) (r : Reconciler)
    (s : P.State)
    → L.log (caught (delete P object_bucket_claim claim) (r, s)).1.1
      ≡ delete_request object_bucket_claim claim ∷ L.log s
unfolding caught delete
caught_log P L claim r s = L.log-delete object_bucket_claim claim s

target_lem :
    (bc : Resource bucket_class) (namespace : String)
    → get_key mcgms_obc_namespace bc.metadata.annotations ≡ some namespace
    → (set_obc_desired_state bc.metadata.name bc).0
      ≡ fresh object_bucket_claim bc.metadata.name namespace
unfolding set_obc_desired_state
target_lem bc namespace h = rw (get_obc_creation_namespace, h)

created_claim :
    (P : Platform) (bc : Resource bucket_class) (namespace : String)
    → get_key mcgms_obc_namespace bc.metadata.annotations ≡ some namespace
    → (w : Reconciler × P.State)
    → (create_claim P bc w).1
      ≡ (P.create_or_update object_bucket_claim
          (fresh object_bucket_claim bc.metadata.name namespace)
          (λ o. pure (claim_as (set_obc_desired_state bc.metadata.name bc).1 o))
          w).1
unfolding create_claim caught
created_claim P bc namespace h w =
    let obc = (set_obc_desired_state bc.metadata.name bc).1 in
    let target = fresh object_bucket_claim bc.metadata.name namespace in
    subst
      (λ o.
        (create_claim P bc w).1
        ≡ (P.create_or_update object_bucket_claim o (λ o. pure (claim_as obc o)) w).1)
      (target_lem bc namespace h)
      (bind-pure
        (caught (
          P.create_or_update object_bucket_claim (set_obc_desired_state bc.metadata.name bc).0
            (λ o. pure (claim_as obc o))))
        (λ x. tt) w)

created :
    (P : Platform) (bc : Resource bucket_class) (namespace : String) (r : Reconciler) (s : P.State)
    (e : Error)
    → get_key mcgms_obc_namespace bc.metadata.annotations ≡ some namespace
    → (bc.body.class_phase == phase_ready) ≡ true
    → let claim = fresh object_bucket_claim bc.metadata.name namespace in
      (P.get object_bucket_claim claim s).0.0 ≡ some e
      → (bucket_class_added P bc (r, s)).1
        ≡ (P.create_or_update object_bucket_claim claim
            (λ o. pure (claim_as (set_obc_desired_state bc.metadata.name bc).1 o))
            (r, (P.get object_bucket_claim claim s).1)).1
unfolding bucket_class_added is_bucket_class_creation_success get_object_bucket_claim
    new_object_bucket_claim get pure ◌>>=◌
created P bc namespace r s e annotated ready missing =
    rw (annotated, ready, missing) (created_claim P bc namespace annotated _)

deleted :
    (P : Platform) (L : IsLawful P) (bc : Resource bucket_class) (namespace : String)
    (r : Reconciler) (s : P.State)
    → get_key mcgms_obc_namespace bc.metadata.annotations ≡ some namespace
    → L.log (bucket_class_deleted P bc (r, s)).1.1
      ≡ delete_request object_bucket_claim (fresh object_bucket_claim bc.metadata.name namespace)
        ∷ L.log s
unfolding bucket_class_deleted new_object_bucket_claim
deleted P L bc namespace r s annotated =
    let claim = fresh object_bucket_claim bc.metadata.name namespace in
    rw annotated (
      ap (λ w. L.log w.1) (bind-pure (caught (delete P object_bucket_claim claim)) (λ x. tt) (r, s))
      ∙ caught_log P L claim r s)

-- A ready bucket class with the annotation, other than `noobaa-default-bucket-class`, has one claim, of
-- its own name and in the namespace of the annotation. The handler of the new class looks up that
-- claim, and where it is not found, leaves that claim to `CreateOrUpdate`, with a callback that
-- writes the owners of the class and its desired spec. The predicate on the deletion of the
-- class sends one request, which deletes that claim.
pub claim_created-claim_deleted :
    (P : Platform) (L : IsLawful P) (bc : Resource bucket_class) (namespace : String)
    (r : Reconciler) (s : P.State) (e : Error)
    → get_key mcgms_obc_namespace bc.metadata.annotations ≡ some namespace
    → (bc.body.class_phase == phase_ready) ≡ true
    → (bc.metadata.name == "noobaa-default-bucket-class") ≡ false
    → let claim = fresh object_bucket_claim bc.metadata.name namespace in
      (P.get object_bucket_claim claim s).0.0 ≡ some e
      → ((bucket_class_added P bc (r, s)).1
          ≡ (P.create_or_update object_bucket_claim claim
              (λ o. pure (claim_as (set_obc_desired_state bc.metadata.name bc).1 o))
              (r, (P.get object_bucket_claim claim s).1)).1)
        × (L.log (bucket_class_delete_predicate P bc (r, s)).1.1
            ≡ delete_request object_bucket_claim claim ∷ L.log s)
unfolding bucket_class_delete_predicate
claim_created-claim_deleted P L bc namespace r s e annotated ready other missing = (
  created P bc namespace r s e annotated ready missing,
  rw other (
      ap (λ w. L.log w.1) (bind-pure (bucket_class_deleted P bc) (λ u. true) (r, s))
      ∙ deleted P L bc namespace r s annotated),
)

-- A store of the list has the default store's prefix.
abbrev has_default : List (Resource backing_store) → Bool
has_default [] = false
has_default (store ∷ rest) =
    if starts_with store.metadata.name default_backing_store then true else has_default rest

abbrev first_name : List (Resource backing_store) → String
first_name [] = ""
first_name (store ∷ rest) = store.metadata.name

pick_backing_store_lem :
    (first : String) (stores : List (Resource backing_store))
    → pick_backing_store first stores
      ≡ (if has_default stores then default_backing_store else first)
unfolding pick_backing_store
pick_backing_store_lem first [] = refl
pick_backing_store_lem first (store ∷ rest) = ground (arith, pick_backing_store_lem first rest)

-- The default backing store is the constant of that name wherever any store has it as a prefix, at
-- whatever place of the list, and else the name of the first store, or empty if there is none.
choose_backing_store_lem :
    (stores : List (Resource backing_store))
    → choose_backing_store stores
      ≡ (if has_default stores then default_backing_store else first_name stores)
unfolding choose_backing_store
choose_backing_store_lem [] = refl
choose_backing_store_lem (store ∷ rest) = pick_backing_store_lem store.metadata.name (store ∷ rest)
