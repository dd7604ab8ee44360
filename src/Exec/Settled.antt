-- ===== src/Exec/Settled.antt =====
-- Programs that make the same again of what others have changed of it: one rule for each way
-- in which the callback of a `CreateOrUpdate` is put together.
use mcg_osd_deployer.Base.{◌≡◌, refl, ap, subst, sym, ◌∙◌, String}
use mcg_osd_deployer.Exec.{Outcome, ok, err, panic, Exec, pure, wrapping, continue, ◌>>=◌}
use mcg_osd_deployer.Exec.Runs.{ok-injective, bind-ok, wrapping-ok, wrap_outcome-ok}

module _ {S A B : Type 0} where
  bind_run_on :
      (x : Outcome A) (s₁ : S) (f : A → Exec S B) {b : B} {s' : S}
      → continue x f s₁ ≡ (ok b, s')
      → (a : A) × (x ≡ ok a) × (f a s₁ ≡ (ok b, s'))
  bind_run_on (ok a) s₁ f h = (a, refl, h)
  bind_run_on (err e) s₁ f h = let h' = ap (λ y. y.0) h in cc
  bind_run_on (panic why) s₁ f h = let h' = ap (λ y. y.0) h in cc

  -- A run that returns, in its two parts.
  pub bind_run :
      (m : Exec S A) (f : A → Exec S B) (s : S) {b : B} {s' : S}
      → (m >>= f) s ≡ (ok b, s')
      → (a : A) × (m s ≡ (ok a, (m s).1)) × (f a (m s).1 ≡ (ok b, s'))
  unfolding ◌>>=◌
  bind_run m f s h = let (a, e, h') = bind_run_on (m s).0 (m s).1 f h in (a, rw (← e) refl, h')

-- `T` brings an object in relation `K` to what it is given, and would have ended in the same way with
-- anything that object has drifted to, by `D`.
pub record Settled {S X : Type 0} (K D : X → X → Type 0) (T : X → Exec S X) : Type 0 where
  pub at :
      (x y : X) (s s' : S) → T x s ≡ (ok y, s') → K x y × ((z : X) → D y z → T z s ≡ (ok y, s'))

-- `m` is the first step, and would have left any `y` alone that is in relation `K` to its object.
pub record Prepares {S X : Type 0} (K : X → X → Type 0) (m : X → Exec S X) : Type 0 where
  pub at : (x x' y : X) (s s' : S) → m x s ≡ (ok x', s') → K x' y → m y s ≡ (ok y, s')

abbrev pub Any : {X : Type 0} → X → X → Type 0
Any x y = Unit

module _ {S X : Type 0} {K D : X → X → Type 0} where
  pub Settled-pure :
      (G : X → X)
      → ((x : X) → K x (G x))
      → ((x z : X) → D (G x) z → G z ≡ G x)
      → Settled {S = S} K D (λ x. pure (G x))
  unfolding pure
  Settled-pure G kept restores = record {
    at = λ x y s s' h.
        let e : G x ≡ y = ok-injective (ap (λ z. z.0) h) in
        (rw (← e) (kept x), λ z d. rw (restores x z (subst (λ u. D u z) (sym e) d)) h);
  }

  pub Settled-bind :
      {A : Type 0} (m : Exec S A) (T : A → X → Exec S X)
      → ((a : A) → Settled K D (T a))
      → Settled K D (λ x. m >>= (λ a. T a x))
  Settled-bind m T k = record {
    at = λ x y s s' h.
        let (a, e, h') = bind_run m (λ a. T a x) s h in
        let (kept, again) = (k a).at x y (m s).1 s' h' in
        (kept, λ z d. bind-ok m (λ a. T a z) e ∙ again z d);
  }

  pub Settled-after :
      (m T : X → Exec S X)
      → ((x y z : X) → K x y → D y z → K x z)
      → Prepares K m
      → Settled K D T
      → Settled Any D (λ x. m x >>= T)
  Settled-after m T moves p k = record {
    at = λ x y s s' h.
        let (x', e, h') = bind_run (m x) T s h in
        let (kept, again) = k.at x' y (m x s).1 s' h' in
        (tt, λ z d. bind-ok (m z) T (p.at x x' z s (m x s).1 e (moves x' y z kept d)) ∙ again z d);
  }

module _ {S X : Type 0} {K : X → X → Type 0} where
  pub Prepares-wrapping :
      (why : String) (m : X → Exec S X) → Prepares K m → Prepares K (λ x. wrapping why (m x))
  unfolding wrapping
  Prepares-wrapping why m p = record {
    at = λ x x' y s s' h k.
        let e : m x s ≡ (ok x', s') =
          rw (← wrap_outcome-ok why (m x s).0 (ap (λ z. z.0) h), ← ap (λ z. z.1) h) refl in
        wrapping-ok why (m y) (p.at x x' y s s' e k);
  }

-- `T` returns the object that it is given, or does not return, and reads nothing of it.
pub record Passes {S X : Type 0} (T : X → Exec S X) : Type 0 where
  pub at : (x x' y : X) (s s' : S) → T x s ≡ (ok x', s') → (x' ≡ x) × (T y s ≡ (ok y, s'))

module _ {S X : Type 0} where
  pub Passes-pure : Passes {S = S} {X = X} (λ x. pure x)
  unfolding pure
  Passes-pure = record {
    at = λ x x' y s s' h.
        (sym (ok-injective (ap (λ z. z.0) h)), ap (λ s. (ok y, s)) (ap (λ z. z.1) h));
  }

  pub Passes-bind :
      {A : Type 0} (m : Exec S A) (T : A → X → Exec S X)
      → ((a : A) → Passes (T a))
      → Passes (λ x. m >>= (λ a. T a x))
  Passes-bind m T k = record {
    at = λ x x' y s s' h.
        let (a, e, h') = bind_run m (λ a. T a x) s h in
        let (same, again) = (k a).at x x' y (m s).1 s' h' in
        (same, bind-ok m (λ a. T a y) e ∙ again);
  }

  pub Prepares-after :
      {K : X → X → Type 0} (m T : X → Exec S X)
      → Prepares K m
      → Passes T
      → Prepares K (λ x. m x >>= T)
  Prepares-after m T p k = record {
    at = λ x x' y s s' h kept.
        let (x₁, e, h') = bind_run (m x) T s h in
        let (same, again) = k.at x₁ x' y (m x s).1 s' h' in
        bind-ok (m y) T (p.at x x₁ y s (m x s).1 e (rw same at kept)) ∙ again;
  }
