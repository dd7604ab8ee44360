-- ===== src/Controller/Bucket/Round/Sound.antt =====
-- What a round of the poll may say of a bucket class, whatever reconciliations do in between.
use mcg_osd_deployer.Base.{
  ◌≡◌, refl, subst, ◌⊎◌, inl, inr, ◌<◌, String, true, false, Option, none, some, List, [], ◌∷◌,
  ◌==◌, Bool-cases,
}
use mcg_osd_deployer.Cluster.Meta.{named}
use mcg_osd_deployer.Cluster.Objects.{bucket_class}
use mcg_osd_deployer.Cluster.Zero.{fresh, zero_body}
use mcg_osd_deployer.Controller.Shared.{
  Pointer, Memory, written, renewed, assigned, renewed-other, later_next, written-cases, Shows,
  renewed-Shows, assigned-Shows, assigned-Keeps,
}
use mcg_osd_deployer.Controller.Bucket.{phase_ready}
use mcg_osd_deployer.Controller.Bucket.Round.{
  Class, Pc, entered, cleared, with_name, with_namespace, fetching, answered, returned, Round, at,
  Action, replaced, placed, handler, set_name, set_namespace, fetched, step, act, run,
}

abbrev Phaseless : Class → Type 0
Phaseless o = o.body ≡ zero_body bucket_class

-- A fresh object with a namespace at most.
abbrev Blank : Class → Type 0
Blank o = (namespace : String) × (o ≡ fresh bucket_class "" namespace)

module _ (namespace : String) (bc : Class) (fetch : Class → Option Class) where
  abbrev target : Class
  target = fresh bucket_class bc.metadata.name bc.metadata.namespace

  abbrev Titled : Class → Type 0
  Titled o = (ns : String) × (o ≡ fresh bucket_class bc.metadata.name ns)

  abbrev Asked : Class → Type 0
  Asked o = (o ≡ target) ⊎ Blank o

  abbrev Entitled : Class → Type 0
  Entitled o = Titled o ⊎ Blank o

  -- What the field shows is nothing, or what the fetch of the class brought.
  abbrev Shown : Class → Type 0
  Shown o = Phaseless o ⊎ ((found : Class) × (fetch target ≡ some found) × (o.body ≡ found.body))

  abbrev IsSound : Pc → Memory bucket_class → Type 0
  IsSound entered m = Unit
  IsSound cleared m = Shows Blank m
  IsSound with_name m = Shows Entitled m
  IsSound with_namespace m = Shows Asked m
  IsSound (fetching p) m = (p < m.next) × Asked (m.objects p) × Shows Phaseless m
  IsSound answered m = Shows Shown m
  IsSound (returned b) m =
      (b ≡ false)
      ⊎ ((found : Class) × (fetch target ≡ some found)
          × (found.body.class_phase == phase_ready ≡ true))

  Asked-Phaseless : (o : Class) → Asked o → Phaseless o
  unfolding fresh
  Asked-Phaseless o (inl e) = rw e
  Asked-Phaseless o (inr (ns, e)) = rw e

  name-Blank : (o : Class) → Blank o → Entitled (set_name bc.metadata.name o)
  unfolding fresh named
  name-Blank o (ns, e) = inl (ns, rw e)

  namespace-Entitled : (o : Class) → Entitled o → Asked (set_namespace bc.metadata.namespace o)
  unfolding fresh named
  namespace-Entitled o (inl (ns, e)) = inl (rw e)
  namespace-Entitled o (inr (ns, e)) = inr (bc.metadata.namespace, rw e)

  place-Blank : (o : Class) → Blank o → Blank (set_namespace namespace o)
  unfolding fresh named
  place-Blank o (ns, e) = (namespace, rw e)

  place-Entitled : (o : Class) → Entitled o → Entitled (set_namespace namespace o)
  unfolding fresh named
  place-Entitled o (inl (ns, e)) = inl (namespace, rw e)
  place-Entitled o (inr h) = inr (place-Blank o h)

  returned-Shown :
      (m : Memory bucket_class)
      → Shows Shown m
      → IsSound (returned ((m.objects m.field).body.class_phase == phase_ready)) m
  unfolding zero_body
  returned-Shown m (lt, inl e) = inl (rw e refl)
  returned-Shown m (lt, inr (found, f, e)) =
      elim (Bool-cases (found.body.class_phase == phase_ready)) [
        | inl ready ↦ inr (found, f, ready)
        | inr not_ready ↦ inl (rw e not_ready)
      ]

  module _ (one_namespace : bc.metadata.namespace ≡ namespace) where
    place-Asked : (o : Class) → Asked o → Asked (set_namespace namespace o)
    unfolding fresh named
    place-Asked o (inl e) = inl (rw (e, one_namespace))
    place-Asked o (inr h) = inr (place-Blank o h)

    placed-IsSound :
        (p : Pc) (m : Memory bucket_class)
        → IsSound p m
        → IsSound p (assigned (set_namespace namespace) m.field m)
    unfolding assigned written
    placed-IsSound entered m h = tt
    placed-IsSound cleared m h =
        assigned-Shows Blank Blank (set_namespace namespace) m place-Blank h
    placed-IsSound with_name m h =
        assigned-Shows Entitled Entitled (set_namespace namespace) m place-Entitled h
    placed-IsSound with_namespace m h =
        assigned-Shows Asked Asked (set_namespace namespace) m place-Asked h
    placed-IsSound (fetching p) m (lt, asked, h) = (
      lt,
      assigned-Keeps Asked (set_namespace namespace) p m.field m place-Asked asked,
      assigned-Shows Phaseless Phaseless (set_namespace namespace) m (λ o e. e) h,
    )
    placed-IsSound answered m h =
        assigned-Shows Shown Shown (set_namespace namespace) m (λ o e. e) h
    placed-IsSound (returned b) m h = h

  replaced-IsSound : (p : Pc) (m : Memory bucket_class) → IsSound p m → IsSound p (renewed m)
  unfolding fresh
  replaced-IsSound entered m h = tt
  replaced-IsSound cleared m h = renewed-Shows Blank m ("", refl)
  replaced-IsSound with_name m h = renewed-Shows Entitled m (inr ("", refl))
  replaced-IsSound with_namespace m h = renewed-Shows Asked m (inr ("", refl))
  replaced-IsSound (fetching p) m (lt, asked, h) =
      (later_next p m lt, rw (renewed-other p m lt) asked, renewed-Shows Phaseless m refl)
  replaced-IsSound answered m h = renewed-Shows Shown m (inl refl)
  replaced-IsSound (returned b) m h = h

  module _ (nameless : (ns : String) → fetch (fresh bucket_class "" ns) ≡ none) where
    fetched-IsSound :
        (p : Pointer) (m : Memory bucket_class) (x : Option Class)
        → fetch (m.objects p) ≡ x
        → Asked (m.objects p)
        → Shows Phaseless m
        → let r = fetched namespace bc fetch p m x in IsSound r.pc r.memory
    unfolding written
    fetched-IsSound p m none e asked h = inl refl
    fetched-IsSound p m (some o) e (inr (ns, b)) h = let n = nameless ns in let e' = rw b at e in cc
    fetched-IsSound p m (some o) e (inl t) (lt, h) = elim (written-cases p m.field o m) [
      | inl (here, same) ↦ (lt, inr (o, rw t at e, rw same))
      | inr (there, same) ↦ (lt, inl (rw same h))
    ]

    step-IsSound :
        (p : Pc) (m : Memory bucket_class)
        → IsSound p m
        → IsSound (step namespace bc fetch p m).pc (step namespace bc fetch p m).memory
    unfolding step
    step-IsSound entered m h = renewed-Shows Blank m ("", refl)
    step-IsSound cleared m h =
        assigned-Shows Blank Entitled (set_name bc.metadata.name) m name-Blank h
    step-IsSound with_name m h =
        assigned-Shows Entitled Asked (set_namespace bc.metadata.namespace) m namespace-Entitled h
    step-IsSound with_namespace m (lt, h) = (lt, h, (lt, Asked-Phaseless _ h))
    step-IsSound (fetching p) m (lt, asked, h) =
        fetched-IsSound p m (fetch (m.objects p)) refl asked h
    step-IsSound answered m h = returned-Shown m h
    step-IsSound (returned b) m h = h

    module _ (one_namespace : bc.metadata.namespace ≡ namespace) where
      run-IsSound :
          (schedule : List Action) (r : Round)
          → IsSound r.pc r.memory
          → let r' = run namespace bc fetch schedule r in IsSound r'.pc r'.memory
      unfolding run act
      run-IsSound [] r h = h
      run-IsSound (replaced ∷ rest) r h = run-IsSound rest _ (replaced-IsSound r.pc r.memory h)
      run-IsSound (placed ∷ rest) r h =
          run-IsSound rest _ (placed-IsSound one_namespace r.pc r.memory h)
      run-IsSound (handler ∷ rest) r h = run-IsSound rest _ (step-IsSound r.pc r.memory h)

      -- A round of the poll says that a bucket class is done only where the fetch of that class, by its
      -- name and namespace, succeeds and brings the phase `Ready`, whatever reconciliations write to
      -- the shared field in between. That holds where the class is in the namespace that the
      -- operator serves, and a fetch without a name fails.
      pub round_sound :
          (schedule : List Action) (m : Memory bucket_class)
          → (run namespace bc fetch schedule (at entered m)).pc ≡ returned true
          → (found : Class) × (fetch (fresh bucket_class bc.metadata.name bc.metadata.namespace)
              ≡ some found)
            × (found.body.class_phase == phase_ready ≡ true)
      round_sound schedule m e =
          let r = run namespace bc fetch schedule (at entered m) in
          let h : IsSound (returned true) r.memory =
            subst (λ p. IsSound p r.memory) e (run-IsSound schedule (at entered m) tt) in
          elim h [ inl f ↦ cc | inr s ↦ s ]
