-- ===== src/Controller/Bucket/Race.antt =====
-- controllers/mcg_bucket.go: the creation of a claim in `bucketClassAdded` as its goroutine runs it,
-- one access to `r.objectBucketClaim` at a time, beside reconciliations that replace that pointer.
pub mod Sent
pub mod Lost
pub mod Ends
pub mod Bare
use mcg_osd_deployer.Base.{
  ℕ, suc, String, Bool, true, false, Option, none, some, List, [], ◌∷◌, if◌then◌else◌,
}
use mcg_osd_deployer.Cluster.Meta.{OwnerReference}
use mcg_osd_deployer.Cluster.Objects.{Resource, bucket_class, object_bucket_claim, ClaimBody}
use mcg_osd_deployer.Controller.Shared.{Pointer, Memory, written, renewed, assigned}
use mcg_osd_deployer.Controller.Bucket.{set_obc_desired_state, get_obc_creation_namespace}

abbrev pub Claim : Type 0
Claim = Resource object_bucket_claim

-- How far the handler is. A pointer is the one that `CreateOrUpdate` was called with.
pub data Pc : Type 0 where
  looked_up : Pc
  cleared : Pc
  with_name : Pc
  with_namespace : Pc
  fetching : Pointer → Pc
  answered : Pointer → Pc
  with_owners : Pointer → Pc
  with_spec : Pointer → Pc
  sent : Claim → Pc
  failed : Pc

pub record Race : Type 0 where
  pub memory : Memory object_bucket_claim
  pub pc : Pc

abbrev pub at : Pc → Memory object_bucket_claim → Race
at p m = record { memory = m; pc = p }

-- What goes on next: `initializeReconciler` replaces the pointer, or the handler makes a step.
pub data Action : Type 0 where
  reconciliation : Action
  handler : Action

abbrev pub set_name : String → Claim → Claim
set_name name o = let m = o.metadata in record o { metadata = record m { name = name } }

abbrev pub set_namespace : String → Claim → Claim
set_namespace namespace o =
    let m = o.metadata in record o { metadata = record m { namespace = namespace } }

abbrev pub set_owners : List OwnerReference → Claim → Claim
set_owners owners o =
    let m = o.metadata in record o { metadata = record m { owner_references = owners } }

abbrev pub set_spec : ClaimBody → Claim → Claim
set_spec spec o = record o { body = spec }

-- `CreateOrUpdate` is of another project. `fetch` says what its fetch makes of the object that it is
-- given, which is `none` where the fetch fails with another error than not-found. It then ends.
-- Otherwise it runs the callback and sends the object, unless it was found and is the same as before.

module _ (bc : Resource bucket_class) (fetch : Claim → Option Claim) where
  -- What the answer to the fetch leads to.
  abbrev pub fetched : Pointer → Memory object_bucket_claim → Option Claim → Race
  fetched p m none = at failed m
  fetched p m (some o) = at (answered p) (written p o m)

  unfoldable pub handle : Pc → Memory object_bucket_claim → Race
  unfolding set_obc_desired_state
  handle looked_up m = at cleared (renewed m)
  handle cleared m = at with_name (assigned (set_name bc.metadata.name) m.field m)
  handle with_name m =
      at with_namespace (assigned (set_namespace (get_obc_creation_namespace bc)) m.field m)
  handle with_namespace m = at (fetching m.field) m
  handle (fetching p) m = fetched p m (fetch (m.objects p))
  handle (answered p) m =
      let obc = (set_obc_desired_state bc.metadata.name bc).1 in
      at (with_owners p) (assigned (set_owners obc.metadata.owner_references) m.field m)
  handle (with_owners p) m =
      let obc = (set_obc_desired_state bc.metadata.name bc).1 in
      at (with_spec p) (assigned (set_spec obc.body) m.field m)
  handle (with_spec p) m = at (sent (m.objects p)) m
  handle (sent o) m = at (sent o) m
  handle failed m = at failed m

  unfoldable pub act : Action → Race → Race
  act reconciliation r = at r.pc (renewed r.memory)
  act handler r = handle r.pc r.memory

  unfoldable pub run : List Action → Race → Race
  run [] r = r
  run (a ∷ rest) r = run rest (act a r)

  -- The claim has been named, and its spec is not yet set.
  abbrev pub in_window : Pc → Bool
  in_window with_name = true
  in_window with_namespace = true
  in_window (fetching p) = true
  in_window (answered p) = true
  in_window (with_owners p) = true
  in_window p = false

  -- A reconciliation starts in that window.
  unfoldable pub overtaken : List Action → Race → Bool
  unfolding act
  overtaken [] r = false
  overtaken (reconciliation ∷ rest) r =
      let later = overtaken rest (act reconciliation r) in if in_window r.pc then true else later
  overtaken (handler ∷ rest) r = overtaken rest (act handler r)

abbrev pub handler_steps : List Action → ℕ
handler_steps [] = 0
handler_steps (reconciliation ∷ rest) = handler_steps rest
handler_steps (handler ∷ rest) = suc (handler_steps rest)
