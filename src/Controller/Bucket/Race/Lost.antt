-- ===== src/Controller/Bucket/Race/Lost.antt =====
-- What the handler sends where a reconciliation starts in its window.
use mcg_osd_deployer.Base.{
  ◌≡◌, ◌≢◌, refl, ap, ◌⊎◌, inl, inr, ◌<◌, true, Option, none, some, List, [], ◌∷◌, Bool-cases,
}
use mcg_osd_deployer.Cluster.Objects.{Resource, bucket_class, object_bucket_claim}
use mcg_osd_deployer.Cluster.Zero.{fresh, zero_body}
use mcg_osd_deployer.Controller.Shared.{
  Pointer, Memory, written, renewed, assigned, renewed-other, renewed-apart, later_next,
  renewed-Holds, written-same, written-other, assigned-Keeps,
}
use mcg_osd_deployer.Controller.Bucket.{set_obc_desired_state, get_obc_creation_namespace}
use mcg_osd_deployer.Controller.Bucket.Race.{
  Claim, Pc, looked_up, cleared, with_name, with_namespace, fetching, answered, with_owners,
  with_spec, sent, failed, Race, Action, reconciliation, handler, set_namespace, set_owners,
  set_spec, fetched, handle, act, run, in_window, overtaken,
}
use mcg_osd_deployer.Controller.Bucket.Race.Sent.{
  target, desired, Alone, handle-Alone, renewed-Alone,
}

abbrev pub Nameless : Claim → Type 0
Nameless o = o.metadata.name ≡ ""

abbrev pub Specless : Claim → Type 0
Specless o = o.body ≡ zero_body object_bucket_claim

-- The fetch leaves the object that it is given as it is.
abbrev pub IsUntouched : (Claim → Option Claim) → Type 0
IsUntouched fetch = (o o' : Claim) → fetch o ≡ some o' → o' ≡ o

-- The object has no name, or the field has gone on to another one while it has no spec.
abbrev Left : Pointer → Memory object_bucket_claim → Type 0
Left p m = (p < m.next) × (Nameless (m.objects p) ⊎ ((p ≢ m.field) × Specless (m.objects p)))

renewed-Nameless :
    (m : Memory object_bucket_claim)
    → ((renewed m).field < (renewed m).next) × Nameless ((renewed m).objects (renewed m).field)
unfolding fresh
renewed-Nameless m = let (lt, e) = renewed-Holds m in (lt, ap (λ o. o.metadata.name) e)

renewed-Left : (p : Pointer) (m : Memory object_bucket_claim) → Left p m → Left p (renewed m)
renewed-Left p m (lt, h) = (
  later_next p m lt,
  elim h [
    | inl e ↦ inl (rw (renewed-other p m lt) e)
    | inr (ne, e) ↦ inr (renewed-apart p m lt, rw (renewed-other p m lt) e)
  ],
)

-- The object of a call in progress, which a reconciliation parts from the field.
renewed-parted :
    (p : Pointer) (m : Memory object_bucket_claim)
    → p < m.next
    → Specless (m.objects p)
    → Left p (renewed m)
renewed-parted p m lt e =
    (later_next p m lt, inr (renewed-apart p m lt, rw (renewed-other p m lt) e))

module _ (bc : Resource bucket_class) (fetch : Claim → Option Claim) where
  -- The claim is spoilt, whatever follows.
  abbrev pub Spoilt : Pc → Memory object_bucket_claim → Type 0
  Spoilt with_name m = (m.field < m.next) × Nameless (m.objects m.field)
  Spoilt with_namespace m = (m.field < m.next) × Nameless (m.objects m.field)
  Spoilt (fetching p) m = Left p m
  Spoilt (answered p) m = Left p m
  Spoilt (with_owners p) m = Left p m
  Spoilt (with_spec p) m = (p < m.next) × (Nameless (m.objects p) ⊎ Specless (m.objects p))
  Spoilt (sent o) m = Nameless o ⊎ Specless o
  Spoilt failed m = Unit
  Spoilt p m = ⊥

  module _ (untouched : IsUntouched fetch) where
    fetched-Spoilt :
        (p : Pointer) (m : Memory object_bucket_claim) (x : Option Claim)
        → fetch (m.objects p) ≡ x
        → Left p m
        → let r = fetched bc fetch p m x in Spoilt r.pc r.memory
    unfolding written
    fetched-Spoilt p m none e h = tt
    fetched-Spoilt p m (some o) e (lt, h) =
        (lt, rw (written-same p o m, untouched (m.objects p) o e) h)

    handle-Spoilt :
        (p : Pc) (m : Memory object_bucket_claim)
        → Spoilt p m
        → Spoilt (handle bc fetch p m).pc (handle bc fetch p m).memory
    unfolding handle assigned written
    handle-Spoilt looked_up m h = elim h [ ]
    handle-Spoilt cleared m h = elim h [ ]
    handle-Spoilt with_name m (lt, h) = (
      lt,
      assigned-Keeps Nameless (set_namespace (get_obc_creation_namespace bc)) m.field m.field m
          (λ o e. e) h,
    )
    handle-Spoilt with_namespace m (lt, h) = (lt, inl h)
    handle-Spoilt (fetching p) m h = fetched-Spoilt p m (fetch (m.objects p)) refl h
    handle-Spoilt (answered p) m (lt, h) =
        let f = set_owners (desired bc fetch).metadata.owner_references in
        (
          lt,
          elim h [
            | inl e ↦ inl (assigned-Keeps Nameless f p m.field m (λ o e. e) e)
            | inr (ne, e) ↦ inr (ne, assigned-Keeps Specless f p m.field m (λ o e. e) e)
          ],
        )
    handle-Spoilt (with_owners p) m (lt, h) =
        let f = set_spec (desired bc fetch).body in
        (
          lt,
          elim h [
            | inl e ↦ inl (assigned-Keeps Nameless f p m.field m (λ o e. e) e)
            | inr (ne, e) ↦ inr (rw (written-other m.field p (f (m.objects m.field)) m ne) e)
          ],
        )
    handle-Spoilt (with_spec p) m (lt, h) = h
    handle-Spoilt (sent o) m h = h
    handle-Spoilt failed m h = h

    renewed-Spoilt : (p : Pc) (m : Memory object_bucket_claim) → Spoilt p m → Spoilt p (renewed m)
    unfolding renewed written
    renewed-Spoilt looked_up m h = elim h [ ]
    renewed-Spoilt cleared m h = elim h [ ]
    renewed-Spoilt with_name m h = renewed-Nameless m
    renewed-Spoilt with_namespace m h = renewed-Nameless m
    renewed-Spoilt (fetching p) m h = renewed-Left p m h
    renewed-Spoilt (answered p) m h = renewed-Left p m h
    renewed-Spoilt (with_owners p) m h = renewed-Left p m h
    renewed-Spoilt (with_spec p) m (lt, h) = (later_next p m lt, rw (renewed-other p m lt) h)
    renewed-Spoilt (sent o) m h = h
    renewed-Spoilt failed m h = h

    -- A reconciliation that starts in the window spoils the claim.
    window-Spoilt :
        (p : Pc) (m : Memory object_bucket_claim)
        → Alone bc fetch p m
        → in_window bc fetch p ≡ true
        → Spoilt p (renewed m)
    unfolding zero_body set_obc_desired_state
    window-Spoilt looked_up m h w = cc
    window-Spoilt cleared m h w = cc
    window-Spoilt with_name m h w = renewed-Nameless m
    window-Spoilt with_namespace m h w = renewed-Nameless m
    window-Spoilt (fetching p) m (here, (lt, e)) w =
        renewed-parted p m (rw here lt) (rw (here, e) refl)
    window-Spoilt (answered p) m (here, (o, f, (lt, e))) w =
        renewed-parted p m (rw here lt) (rw (here, e, untouched (target bc fetch) o f) refl)
    window-Spoilt (with_owners p) m (here, (o, f, (lt, e))) w =
        renewed-parted p m (rw here lt) (rw (here, e, untouched (target bc fetch) o f) refl)
    window-Spoilt (with_spec p) m h w = cc
    window-Spoilt (sent o) m h w = cc
    window-Spoilt failed m h w = cc

    run-Spoilt :
        (schedule : List Action) (r : Race)
        → Spoilt r.pc r.memory
        → Spoilt (run bc fetch schedule r).pc (run bc fetch schedule r).memory
    unfolding run act
    run-Spoilt [] r h = h
    run-Spoilt (reconciliation ∷ rest) r h = run-Spoilt rest _ (renewed-Spoilt r.pc r.memory h)
    run-Spoilt (handler ∷ rest) r h = run-Spoilt rest _ (handle-Spoilt r.pc r.memory h)

    pub overtaken-Spoilt :
        (schedule : List Action) (r : Race)
        → Alone bc fetch r.pc r.memory
        → overtaken bc fetch schedule r ≡ true
        → Spoilt (run bc fetch schedule r).pc (run bc fetch schedule r).memory
    unfolding run overtaken act
    overtaken-Spoilt [] r h w = cc
    overtaken-Spoilt (reconciliation ∷ rest) r h w = elim (Bool-cases (in_window bc fetch r.pc)) [
      | inl e ↦ run-Spoilt rest _ (window-Spoilt r.pc r.memory h e)
      | inr e ↦ overtaken-Spoilt rest _ (renewed-Alone bc fetch r.pc r.memory h e) (rw e at w)
    ]
    overtaken-Spoilt (handler ∷ rest) r h w =
        overtaken-Spoilt rest _ (handle-Alone bc fetch r.pc r.memory h) w
