-- ===== src/Controller/Shared.antt =====
-- A pointer field of the reconciler as the goroutines of the operator share it: the objects that were
-- allocated for it, and the one that it points to.
use mcg_osd_deployer.Base.{
  ◌≡◌, ◌≢◌, refl, ◌⊎◌, inl, inr, ℕ, suc, ◌<◌, Bool, true, false, if◌then◌else◌, arith,
}
use mcg_osd_deployer.Cluster.Objects.{Kind, Resource}
use mcg_osd_deployer.Cluster.Zero.{fresh}
use native.Mathlib.Decide.{ℕ_discrete}
use Prim.Native.Nat.{compare, Ordering}

abbrev pub Pointer : Type 0
Pointer = ℕ

abbrev same : Pointer → Pointer → Bool
same p q = elim (compare p q) [ Ordering.eq ↦ true | _ ↦ false ]

-- Addresses from `next` on have not been given out.
pub record Memory (k : Kind) : Type 0 where
  pub objects : Pointer → Resource k
  pub field : Pointer
  pub next : Pointer

module _ {k : Kind} where
  -- `*p = o`
  unfoldable pub written : Pointer → Resource k → Memory k → Memory k
  written p o m = record m { objects = λ q. if same q p then o else m.objects q }

  -- `r.field = &T{}`
  unfoldable pub renewed : Memory k → Memory k
  unfolding written
  renewed m = record (written m.next (fresh k "" "") m) { field = m.next; next = suc m.next }

  -- An assignment to a part of the object at `p`.
  unfoldable pub assigned : (Resource k → Resource k) → Pointer → Memory k → Memory k
  unfolding written
  assigned f p m = written p (f (m.objects p)) m

  pub written-same : (p : Pointer) (o : Resource k) (m : Memory k) → (written p o m).objects p ≡ o
  unfolding written
  written-same p o m = ground arith

  pub written-other :
      (p q : Pointer) (o : Resource k) (m : Memory k)
      → q ≢ p
      → (written p o m).objects q ≡ m.objects q
  unfolding written
  written-other p q o m ne = ground arith

  pub written-cases :
      (p q : Pointer) (o : Resource k) (m : Memory k)
      → ((q ≡ p) × ((written p o m).objects q ≡ o))
        ⊎ ((q ≢ p) × ((written p o m).objects q ≡ m.objects q))
  written-cases p q o m = elim (ℕ_discrete q p) [
    | yes e ↦ inl (e, rw e (written-same p o m))
    | no ne ↦ inr (ne, written-other p q o m ne)
  ]

  pub renewed-field : (m : Memory k) → (renewed m).objects (renewed m).field ≡ fresh k "" ""
  unfolding renewed written
  renewed-field m = ground arith

  pub renewed-other :
      (p : Pointer) (m : Memory k) → p < m.next → (renewed m).objects p ≡ m.objects p
  unfolding renewed written
  renewed-other p m lt = ground arith

  pub later_next : (p : Pointer) (m : Memory k) → p < m.next → p < (renewed m).next
  unfolding renewed written
  later_next p m lt = omega arith

  pub renewed-apart : (p : Pointer) (m : Memory k) → p < m.next → p ≢ (renewed m).field
  unfolding renewed written
  renewed-apart p m lt eq = ground arith

  -- The field points to an object that was given out, and the object is `o`.
  abbrev pub Holds : Memory k → Resource k → Type 0
  Holds m o = (m.field < m.next) × (m.objects m.field ≡ o)

  pub renewed-Holds : (m : Memory k) → Holds (renewed m) (fresh k "" "")
  unfolding renewed written
  renewed-Holds m = (omega arith, renewed-field m)

  pub written-Holds :
      (o : Resource k) (m : Memory k) → m.field < m.next → Holds (written m.field o m) o
  unfolding written
  written-Holds o m lt = (lt, written-same m.field o m)

  pub assigned-Holds :
      (f : Resource k → Resource k) (m : Memory k) {o : Resource k}
      → Holds m o
      → Holds (assigned f m.field m) (f o)
  unfolding assigned written
  assigned-Holds f m (lt, e) = (lt, rw (written-same m.field (f (m.objects m.field)) m, e))

  -- An assignment that a predicate survives leaves it true, whichever object it is made to.
  pub assigned-Keeps :
      (Q : Resource k → Type 0) (f : Resource k → Resource k) (p q : Pointer) (m : Memory k)
      → ((o : Resource k) → Q o → Q (f o))
      → Q (m.objects p)
      → Q ((assigned f q m).objects p)
  unfolding assigned
  assigned-Keeps Q f p q m keep h = elim (written-cases q p (f (m.objects q)) m) [
    | inl (e, same) ↦ rw same (keep (m.objects q) (rw (← e) h))
    | inr (ne, same) ↦ rw same h
  ]

  -- The object of the field was given out, and has the property `Q`.
  abbrev pub Shows : (Resource k → Type 0) → Memory k → Type 0
  Shows Q m = (m.field < m.next) × Q (m.objects m.field)

  pub renewed-Shows :
      (Q : Resource k → Type 0) (m : Memory k) → Q (fresh k "" "") → Shows Q (renewed m)
  renewed-Shows Q m h = let (lt, e) = renewed-Holds m in (lt, rw e h)

  pub assigned-Shows :
      (Q Q' : Resource k → Type 0) (f : Resource k → Resource k) (m : Memory k)
      → ((o : Resource k) → Q o → Q' (f o))
      → Shows Q m
      → Shows Q' (assigned f m.field m)
  assigned-Shows Q Q' f m carry (lt, h) =
      let (lt', e) = assigned-Holds f m (lt, refl) in (lt', rw e (carry (m.objects m.field) h))
