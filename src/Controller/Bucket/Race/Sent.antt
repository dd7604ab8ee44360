-- ===== src/Controller/Bucket/Race/Sent.antt =====
-- What the handler sends where no reconciliation starts in its window.
use mcg_osd_deployer.Base.{
  ◌≡◌, refl, ◌<◌, false, Option, none, some, List, [], ◌∷◌, arith, Bool-cases, inl, inr,
}
use mcg_osd_deployer.Cluster.Objects.{Resource, bucket_class, object_bucket_claim}
use mcg_osd_deployer.Cluster.Zero.{fresh}
use mcg_osd_deployer.Controller.Shared.{
  Memory, written, renewed, assigned, Holds, renewed-other, renewed-Holds, written-Holds,
  assigned-Holds,
}
use mcg_osd_deployer.Controller.Bucket.{set_obc_desired_state, get_obc_creation_namespace, claim_as}
use mcg_osd_deployer.Controller.Bucket.Race.{
  Claim, Pc, looked_up, cleared, with_name, with_namespace, fetching, answered, with_owners,
  with_spec, sent, failed, Race, Action, reconciliation, handler, set_name, set_namespace,
  set_owners, set_spec, fetched, handle, act, run, in_window, overtaken,
}

module _ (bc : Resource bucket_class) (fetch : Claim → Option Claim) where
  -- The object with its name and namespace, and the one that holds what is desired.
  abbrev pub target : Claim
  target = (set_obc_desired_state bc.metadata.name bc).0

  abbrev pub desired : Claim
  desired = (set_obc_desired_state bc.metadata.name bc).1

  -- All is as where the handler runs alone.
  abbrev pub Alone : Pc → Memory object_bucket_claim → Type 0
  Alone looked_up m = Unit
  Alone cleared m = Holds m (fresh object_bucket_claim "" "")
  Alone with_name m = Holds m (fresh object_bucket_claim bc.metadata.name "")
  Alone with_namespace m = Holds m target
  Alone (fetching p) m = (p ≡ m.field) × Holds m target
  Alone (answered p) m = (p ≡ m.field) × ((o : Claim) × (fetch target ≡ some o) × Holds m o)
  Alone (with_owners p) m =
      (p ≡ m.field)
      × ((o : Claim) × (fetch target ≡ some o)
          × Holds m (set_owners desired.metadata.owner_references o))
  Alone (with_spec p) m =
      (p < m.next) × ((o : Claim) × (fetch target ≡ some o) × (m.objects p ≡ claim_as desired o))
  Alone (sent o') m = (o : Claim) × (fetch target ≡ some o) × (o' ≡ claim_as desired o)
  Alone failed m = fetch target ≡ none

  fetched-Alone :
      (m : Memory object_bucket_claim) (x : Option Claim)
      → m.field < m.next
      → fetch target ≡ x
      → let r = fetched bc fetch m.field m x in Alone r.pc r.memory
  unfolding written
  fetched-Alone m none lt e = e
  fetched-Alone m (some o) lt e = (refl, (o, e, written-Holds o m lt))

  pub handle-Alone :
      (p : Pc) (m : Memory object_bucket_claim)
      → Alone p m
      → Alone (handle bc fetch p m).pc (handle bc fetch p m).memory
  unfolding handle assigned written claim_as
  handle-Alone looked_up m h = renewed-Holds m
  handle-Alone cleared m h = assigned-Holds (set_name bc.metadata.name) m h
  handle-Alone with_name m h = assigned-Holds (set_namespace (get_obc_creation_namespace bc)) m h
  handle-Alone with_namespace m h = (refl, h)
  handle-Alone (fetching p) m (here, (lt, e)) =
      rw (here, e) (fetched-Alone m (fetch target) lt refl)
  handle-Alone (answered p) m (here, (o, f, h)) =
      (here, (o, f, assigned-Holds (set_owners desired.metadata.owner_references) m h))
  handle-Alone (with_owners p) m (here, (o, f, h)) =
      let (lt, e) = assigned-Holds (set_spec desired.body) m h in (rw here lt, (o, f, rw here e))
  handle-Alone (with_spec p) m (lt, (o, f, e)) = (o, f, e)
  handle-Alone (sent o) m h = h
  handle-Alone failed m h = h

  pub renewed-Alone :
      (p : Pc) (m : Memory object_bucket_claim)
      → Alone p m
      → in_window bc fetch p ≡ false
      → Alone p (renewed m)
  unfolding renewed written
  renewed-Alone looked_up m h w = tt
  renewed-Alone cleared m h w = renewed-Holds m
  renewed-Alone with_name m h w = cc
  renewed-Alone with_namespace m h w = cc
  renewed-Alone (fetching p) m h w = cc
  renewed-Alone (answered p) m h w = cc
  renewed-Alone (with_owners p) m h w = cc
  renewed-Alone (with_spec p) m (lt, (o, f, e)) w =
      (omega arith, (o, f, rw (renewed-other p m lt) e))
  renewed-Alone (sent o) m h w = h
  renewed-Alone failed m h w = h

  pub run-Alone :
      (schedule : List Action) (r : Race)
      → Alone r.pc r.memory
      → overtaken bc fetch schedule r ≡ false
      → Alone (run bc fetch schedule r).pc (run bc fetch schedule r).memory
  unfolding run overtaken act
  run-Alone [] r h w = h
  run-Alone (reconciliation ∷ rest) r h w = elim (Bool-cases (in_window bc fetch r.pc)) [
    | inl e ↦ let w' = rw e at w in cc
    | inr e ↦ run-Alone rest _ (renewed-Alone r.pc r.memory h e) (rw e at w)
  ]
  run-Alone (handler ∷ rest) r h w = run-Alone rest _ (handle-Alone r.pc r.memory h) w
