-- ===== src/Controller/Bucket/Race/Bare.antt =====
-- What the handler sends where a reconciliation starts while the claim is fetched.
use mcg_osd_deployer.Base.{
  ◌≡◌, ◌≢◌, refl, subst, ◌<◌, ◌≤◌, false, Option, some, List, [], ◌∷◌, arith,
}
use mcg_osd_deployer.Cluster.Objects.{Resource, bucket_class, object_bucket_claim}
use mcg_osd_deployer.Controller.Shared.{
  Pointer, Memory, written, renewed, assigned, renewed-other, renewed-apart, later_next,
  written-same, written-other,
}
use mcg_osd_deployer.Controller.Bucket.{set_obc_desired_state}
use mcg_osd_deployer.Controller.Bucket.Race.{
  Claim, Pc, looked_up, cleared, with_name, with_namespace, fetching, answered, with_owners,
  with_spec, sent, failed, Race, at, Action, reconciliation, handler, set_owners, set_spec, fetched,
  handle, act, run, overtaken, handler_steps,
}
use mcg_osd_deployer.Controller.Bucket.Race.Sent.{target, desired, Alone, run-Alone}
use mcg_osd_deployer.Controller.Bucket.Race.Ends.{left, left-run}

module _ (bc : Resource bucket_class) (fetch : Claim → Option Claim) where
  -- The object of the call has its name and namespace alone, and the field has gone on.
  abbrev Parted : Pointer → Memory object_bucket_claim → Type 0
  Parted p m = (p < m.next) × (p ≢ m.field) × (m.objects p ≡ target bc fetch)

  abbrev Bare : Pc → Memory object_bucket_claim → Type 0
  Bare (fetching p) m = Parted p m
  Bare (answered p) m = Parted p m
  Bare (with_owners p) m = Parted p m
  Bare (with_spec p) m = (p < m.next) × (m.objects p ≡ target bc fetch)
  Bare (sent o) m = o ≡ target bc fetch
  Bare p m = ⊥

  renewed-Parted :
      (p : Pointer) (m : Memory object_bucket_claim)
      → p < m.next
      → m.objects p ≡ target bc fetch
      → Parted p (renewed m)
  renewed-Parted p m lt e = (later_next p m lt, renewed-apart p m lt, rw (renewed-other p m lt) e)

  assigned-Parted :
      (f : Claim → Claim) (p : Pointer) (m : Memory object_bucket_claim)
      → Parted p m
      → Parted p (assigned f m.field m)
  unfolding assigned written
  assigned-Parted f p m (lt, ne, e) =
      (lt, ne, rw (written-other m.field p (f (m.objects m.field)) m ne) e)

  renewed-Bare : (p : Pc) (m : Memory object_bucket_claim) → Bare p m → Bare p (renewed m)
  renewed-Bare looked_up m h = elim h [ ]
  renewed-Bare cleared m h = elim h [ ]
  renewed-Bare with_name m h = elim h [ ]
  renewed-Bare with_namespace m h = elim h [ ]
  renewed-Bare (fetching p) m (lt, ne, e) = renewed-Parted p m lt e
  renewed-Bare (answered p) m (lt, ne, e) = renewed-Parted p m lt e
  renewed-Bare (with_owners p) m (lt, ne, e) = renewed-Parted p m lt e
  renewed-Bare (with_spec p) m (lt, e) = let (lt', ne, e') = renewed-Parted p m lt e in (lt', e')
  renewed-Bare (sent o) m h = h
  renewed-Bare failed m h = elim h [ ]

  module _ (absent : fetch (target bc fetch) ≡ some (target bc fetch)) where
    fetched-Bare :
        (p : Pointer) (m : Memory object_bucket_claim)
        → Parted p m
        → let r = fetched bc fetch p m (some (target bc fetch)) in Bare r.pc r.memory
    unfolding written
    fetched-Bare p m (lt, ne, e) = (lt, ne, written-same p (target bc fetch) m)

    handle-Bare :
        (p : Pc) (m : Memory object_bucket_claim)
        → Bare p m
        → Bare (handle bc fetch p m).pc (handle bc fetch p m).memory
    unfolding handle
    handle-Bare looked_up m h = elim h [ ]
    handle-Bare cleared m h = elim h [ ]
    handle-Bare with_name m h = elim h [ ]
    handle-Bare with_namespace m h = elim h [ ]
    handle-Bare (fetching p) m (lt, ne, e) = rw (e, absent) (fetched-Bare p m (lt, ne, e))
    handle-Bare (answered p) m h =
        assigned-Parted (set_owners (desired bc fetch).metadata.owner_references) p m h
    handle-Bare (with_owners p) m h =
        let (lt, ne, e) = assigned-Parted (set_spec (desired bc fetch).body) p m h in (lt, e)
    handle-Bare (with_spec p) m (lt, e) = e
    handle-Bare (sent o) m h = h
    handle-Bare failed m h = elim h [ ]

    run-Bare :
        (schedule : List Action) (r : Race)
        → Bare r.pc r.memory
        → Bare (run bc fetch schedule r).pc (run bc fetch schedule r).memory
    unfolding run act
    run-Bare [] r h = h
    run-Bare (reconciliation ∷ rest) r h = run-Bare rest _ (renewed-Bare r.pc r.memory h)
    run-Bare (handler ∷ rest) r h = run-Bare rest _ (handle-Bare r.pc r.memory h)

  ended :
      (p : Pc) (m : Memory object_bucket_claim) → left p ≤ 0 → Bare p m → p ≡ sent (target bc fetch)
  ended looked_up m h b = elim b [ ]
  ended cleared m h b = elim b [ ]
  ended with_name m h b = elim b [ ]
  ended with_namespace m h b = elim b [ ]
  ended (fetching p) m h b = ground arith
  ended (answered p) m h b = ground arith
  ended (with_owners p) m h b = ground arith
  ended (with_spec p) m h b = ground arith
  ended (sent o) m h b = rw b
  ended failed m h b = elim b [ ]

  -- A reconciliation that starts while the handler waits for its fetch of the claim, however it came
  -- to that fetch undisturbed, makes it create a claim that has its name and namespace and nothing
  -- else, no owner and no spec, whatever follows, where the API server has no such claim yet.
  pub fetch_overtaken :
      (before after : List Action) (m : Memory object_bucket_claim) (p : Pointer)
      → (run bc fetch before (at looked_up m)).pc ≡ fetching p
      → overtaken bc fetch before (at looked_up m) ≡ false
      → fetch (set_obc_desired_state bc.metadata.name bc).0
        ≡ some (set_obc_desired_state bc.metadata.name bc).0
      → 4 ≤ handler_steps after
      → (run bc fetch after (act bc fetch reconciliation (run bc fetch before (at looked_up m)))).pc
        ≡ sent (set_obc_desired_state bc.metadata.name bc).0
  unfolding act
  fetch_overtaken before after m p came calm absent enough =
      let r = run bc fetch before (at looked_up m) in
      let (here, (lt, e)) =
        subst (λ q. Alone bc fetch q r.memory) came
          (run-Alone bc fetch before (at looked_up m) tt calm) in
      let r₁ = act bc fetch reconciliation r in
      let bare : Bare r₁.pc r₁.memory =
        rw came (renewed-Parted p r.memory (rw here lt) (rw here e)) in
      let end = run bc fetch after r₁ in
      let four : left r.pc ≡ 4 = rw came refl in
      ended end.pc end.memory (omega (arith, left-run bc fetch after r₁))
        (run-Bare absent after r₁ bare)
