-- ===== src/Controller/Bucket.antt =====
-- controllers/mcg_bucket.go: an object bucket claim for each bucket class that asks for one.
pub mod Claims
pub mod Race
pub mod Round
use mcg_osd_deployer.Base.{
  String, ◌<>◌, Bool, true, false, Option, none, some, List, [], ◌∷◌, ◌⊎◌, inl, inr, ◌==◌,
  if◌then◌else◌, is_some, not, starts_with,
}
use mcg_osd_deployer.Exec.{Error, Exec, ok, pure, when, ◌>>=◌, ◌>>◌, caught}
use mcg_osd_deployer.Cluster.Meta.{get_key, or_empty}
use mcg_osd_deployer.Cluster.Objects.{Resource, bucket_class, backing_store, object_bucket_claim}
use mcg_osd_deployer.Cluster.Zero.{fresh}
use mcg_osd_deployer.Cluster.Platform.{Platform}
use mcg_osd_deployer.Controller.Calls.{M, this, on_cluster, get, list, delete}

abbrev pub mcgms_obc_namespace : String
mcgms_obc_namespace = "mcgms-obc-namespace"

abbrev pub default_backing_store : String
default_backing_store = "noobaa-default-backing-store"

abbrev pub phase_ready : String
phase_ready = "Ready"

-- The loop of `getDefaultBackingStore`, with what is returned after it.
unfoldable pub pick_backing_store : String → List (Resource backing_store) → String
pick_backing_store first [] = first
pick_backing_store first (store ∷ rest) =
    if starts_with store.metadata.name default_backing_store
    then default_backing_store
    else pick_backing_store first rest

unfoldable pub choose_backing_store : List (Resource backing_store) → String
unfolding pick_backing_store
choose_backing_store [] = ""
choose_backing_store (store ∷ rest) = pick_backing_store store.metadata.name (store ∷ rest)

unfoldable pub get_obc_creation_namespace : Resource bucket_class → String
get_obc_creation_namespace bc = elim (get_key mcgms_obc_namespace bc.metadata.annotations) [
  | some namespace ↦ namespace
  | none ↦ bc.metadata.namespace
]

unfoldable pub new_object_bucket_claim : Resource bucket_class → Resource object_bucket_claim
unfolding fresh
new_object_bucket_claim object =
    fresh object_bucket_claim object.metadata.name
      (or_empty (get_key mcgms_obc_namespace object.metadata.annotations))

-- The claim under its name, and the claim that holds its desired owners and spec.
unfoldable pub set_obc_desired_state :
    String → Resource bucket_class → Resource object_bucket_claim × Resource object_bucket_claim
unfolding get_obc_creation_namespace fresh
set_obc_desired_state name bc =
    let empty = fresh object_bucket_claim "" "" in
    let m = empty.metadata in
    (
      fresh object_bucket_claim name (get_obc_creation_namespace bc),
      record {
        metadata = record m { owner_references = bc.metadata.owner_references };
        body = record {
          bucket_name = name;
          storage_class_name = bc.metadata.namespace <> ".noobaa.io";
          generate_bucket_name = name;
          additional_config = some (("bucketclass", name) ∷ []);
        };
      },
    )

-- The callback that makes the claim `o` what is desired.
unfoldable pub claim_as :
    Resource object_bucket_claim → Resource object_bucket_claim → Resource object_bucket_claim
claim_as desired o =
    let m = o.metadata in
    record o {
      metadata = record m { owner_references = desired.metadata.owner_references };
      body = desired.body;
    }

abbrev or_else : {A : Type 0} → A → Error ⊎ A → A
or_else a (inl e) = a
or_else a (inr b) = b

module _ (P : Platform) where
  -- A class that cannot be fetched, or is in another phase, is not yet done. The object that
  -- `r.bucketClass` points to is that of the round here; Bucket/Round has the pointer.
  unfoldable pub bucket_class_ready : Resource bucket_class → Exec P.State Bool
  unfolding fresh
  bucket_class_ready bc s =
      let ((e, o), s') =
        P.get bucket_class (fresh bucket_class bc.metadata.name bc.metadata.namespace) s in
      (ok (if is_some e then false else (o.body.class_phase == phase_ready)), s')

  unfoldable pub is_bucket_class_creation_success : Resource bucket_class → M P Bool
  unfolding on_cluster
  is_bucket_class_creation_success bc = if bc.body.class_phase == phase_ready then pure true else do
    x ← caught (on_cluster P (P.poll_immediate 2 10 (bucket_class_ready bc)))
    pure (elim x [ inl e ↦ false | inr u ↦ true ])

  unfoldable pub get_object_bucket_claim :
      Resource bucket_class → M P (Option (Resource object_bucket_claim))
  unfolding get new_object_bucket_claim
  get_object_bucket_claim object = do
    (e, claim) ← get P object_bucket_claim (new_object_bucket_claim object)
    pure (elim e [ none ↦ some claim | some e ↦ none ])

  -- The part of `bucketClassAdded` that runs where there is no claim yet.
  unfoldable pub create_claim : Resource bucket_class → M P (Unit {0})
  unfolding set_obc_desired_state claim_as
  create_claim bc =
      let (target, obc) = set_obc_desired_state bc.metadata.name bc in
      do
        x ←
            caught
              (P.create_or_update object_bucket_claim target (λ claim. pure (claim_as obc claim)))
        pure tt

  unfoldable pub bucket_class_added : Resource bucket_class → M P (Unit {0})
  bucket_class_added bc = when (is_some (get_key mcgms_obc_namespace bc.metadata.annotations)) do
    success ← is_bucket_class_creation_success bc
    when success
        do existing ← get_object_bucket_claim bc; when (not (is_some existing)) (create_claim bc)

  unfoldable pub bucket_class_deleted : Resource bucket_class → M P (Unit {0})
  unfolding delete new_object_bucket_claim
  bucket_class_deleted object = do
    x ← caught (delete P object_bucket_claim (new_object_bucket_claim object))
    pure tt

  unfoldable pub get_default_backing_store : M P String
  unfolding list choose_backing_store
  get_default_backing_store = do
    x ← caught (list P backing_store)
    pure (choose_backing_store (or_else [] x))
