-- ===== src/Controller/Bucket/Round.antt =====
-- controllers/mcg_bucket.go: one round of the poll in `isBucketClassCreationSuccess` as its goroutine
-- runs it, one access to `r.bucketClass` at a time, beside reconciliations that replace that pointer.
pub mod Sound
use mcg_osd_deployer.Base.{String, Bool, true, false, Option, none, some, List, [], ◌∷◌, ◌==◌}
use mcg_osd_deployer.Cluster.Objects.{Resource, bucket_class}
use mcg_osd_deployer.Controller.Shared.{Pointer, Memory, written, renewed, assigned}
use mcg_osd_deployer.Controller.Bucket.{phase_ready}

abbrev pub Class : Type 0
Class = Resource bucket_class

-- How far the round is. A pointer is the one that the fetch was called with.
pub data Pc : Type 0 where
  entered : Pc
  cleared : Pc
  with_name : Pc
  with_namespace : Pc
  fetching : Pointer → Pc
  answered : Pc
  returned : Bool → Pc

pub record Round : Type 0 where
  pub memory : Memory bucket_class
  pub pc : Pc

abbrev pub at : Pc → Memory bucket_class → Round
at p m = record { memory = m; pc = p }

-- What goes on next: the two lines of `initializeReconciler` on `r.bucketClass`, of any number of
-- reconciliations, or a step of the round.
pub data Action : Type 0 where
  replaced : Action
  placed : Action
  handler : Action

abbrev pub set_name : String → Class → Class
set_name name o = let m = o.metadata in record o { metadata = record m { name = name } }

abbrev pub set_namespace : String → Class → Class
set_namespace namespace o =
    let m = o.metadata in record o { metadata = record m { namespace = namespace } }

-- `fetch` says what the fetch makes of the object that it is given, and is `none` where it fails.
-- `namespace` is the one of the reconciliations.
module _ (namespace : String) (bc : Class) (fetch : Class → Option Class) where
  abbrev pub fetched : Pointer → Memory bucket_class → Option Class → Round
  fetched p m none = at (returned false) m
  fetched p m (some o) = at answered (written p o m)

  unfoldable pub step : Pc → Memory bucket_class → Round
  step entered m = at cleared (renewed m)
  step cleared m = at with_name (assigned (set_name bc.metadata.name) m.field m)
  step with_name m = at with_namespace (assigned (set_namespace bc.metadata.namespace) m.field m)
  step with_namespace m = at (fetching m.field) m
  step (fetching p) m = fetched p m (fetch (m.objects p))
  step answered m = at (returned ((m.objects m.field).body.class_phase == phase_ready)) m
  step (returned b) m = at (returned b) m

  unfoldable pub act : Action → Round → Round
  act replaced r = at r.pc (renewed r.memory)
  act placed r = let m = r.memory in at r.pc (assigned (set_namespace namespace) m.field m)
  act handler r = step r.pc r.memory

  unfoldable pub run : List Action → Round → Round
  run [] r = r
  run (a ∷ rest) r = run rest (act a r)
