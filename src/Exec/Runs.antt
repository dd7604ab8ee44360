-- ===== src/Exec/Runs.antt =====
-- How a program goes on after a part whose outcome is known.
use mcg_osd_deployer.Base.{◌≡◌, refl, ap, String}
use mcg_osd_deployer.Exec.{
  Error, Outcome, ok, err, panic, wrapf, Exec, pure, wrapping, wrap_outcome, continue, ◌>>=◌,
}

module _ {S A B : Type 0} (m : Exec S A) (f : A → Exec S B) {s s' : S} where
  pub bind-ok : {a : A} → m s ≡ (ok a, s') → (m >>= f) s ≡ f a s'
  unfolding ◌>>=◌
  bind-ok eq = rw eq

  pub bind-err : {e : Error} → m s ≡ (err e, s') → (m >>= f) s ≡ (err e, s')
  unfolding ◌>>=◌
  bind-err eq = rw eq

  pub bind-panic : {why : String} → m s ≡ (panic why, s') → (m >>= f) s ≡ (panic why, s')
  unfolding ◌>>=◌
  bind-panic eq = rw eq

module _ {S A : Type 0} (why : String) (m : Exec S A) {s s' : S} where
  pub wrapping-ok : {a : A} → m s ≡ (ok a, s') → wrapping why m s ≡ (ok a, s')
  unfolding wrapping
  wrapping-ok eq = rw eq

  pub wrapping-err : {e : Error} → m s ≡ (err e, s') → wrapping why m s ≡ (err (wrapf why e), s')
  unfolding wrapping
  wrapping-err eq = rw eq

-- What holds of the state after `m` fails, and after the rest where `m` returns, holds at the end.
module _ {S A B : Type 0} (Q : S → Type 0) (m : Exec S A) (f : A → Exec S B) (s : S) where
  bind_split_on :
      (x : Outcome A) (s' : S)
      → m s ≡ (x, s')
      → ((a : A) → m s ≡ (ok a, s') → Q (f a s').1)
      → Q s'
      → Q (continue x f s').1
  bind_split_on (ok a) s' e k h = k a e
  bind_split_on (err why) s' e k h = h
  bind_split_on (panic why) s' e k h = h

  pub bind_split :
      ((a : A) → m s ≡ (ok a, (m s).1) → Q (f a (m s).1).1) → Q (m s).1 → Q ((m >>= f) s).1
  unfolding ◌>>=◌
  bind_split k h = bind_split_on (m s).0 (m s).1 refl k h

-- A part that has to return, where the whole returns.
module _ {S A B : Type 0} (m : Exec S A) (f : A → Exec S B) (s : S) where
  bind_inv_on :
      (x : Outcome A) (s' : S) {b : B}
      → m s ≡ (x, s')
      → (continue x f s').0 ≡ ok b
      → (a : A) × (m s ≡ (ok a, s')) × ((f a s').0 ≡ ok b)
  bind_inv_on (ok a) s' e h = (a, e, h)
  bind_inv_on (err why) s' e h = cc
  bind_inv_on (panic why) s' e h = cc

  pub bind_inv :
      {b : B}
      → ((m >>= f) s).0 ≡ ok b
      → (a : A) × (m s ≡ (ok a, (m s).1)) × ((f a (m s).1).0 ≡ ok b)
  unfolding ◌>>=◌
  bind_inv h = bind_inv_on (m s).0 (m s).1 refl h

-- The same for a part that has been run already.
module _ {S A B : Type 0} where
  pub continue_inv :
      (x : Outcome A) (f : A → Exec S B) (s : S) {b : B}
      → (continue x f s).0 ≡ ok b
      → (a : A) × (x ≡ ok a) × ((f a s).0 ≡ ok b)
  continue_inv (ok a) f s h = (a, refl, h)
  continue_inv (err why) f s h = cc
  continue_inv (panic why) f s h = cc

module _ {A : Type 0} where
  or_else : A → Outcome A → A
  or_else a (ok b) = b
  or_else a (err e) = a
  or_else a (panic why) = a

  pub ok-injective : {a b : A} → ok a ≡ ok b → a ≡ b
  unfolding or_else
  ok-injective {a} e = ap (or_else a) e

  pub wrap_outcome-ok :
      (why : String) (x : Outcome A) {a : A} → wrap_outcome why x ≡ ok a → x ≡ ok a
  wrap_outcome-ok why (ok b) h = h
  wrap_outcome-ok why (err e) h = cc
  wrap_outcome-ok why (panic p) h = cc

module _ {S A : Type 0} (why : String) (m : Exec S A) (s : S) where
  pub wrapping_inv : {a : A} → (wrapping why m s).0 ≡ ok a → (m s).0 ≡ ok a
  unfolding wrapping
  wrapping_inv h = wrap_outcome-ok why (m s).0 h

-- A step after which a value is returned in any case leaves the state as that step does.
module _ {S A B : Type 0} (m : Exec S A) (f : A → B) (s : S) where
  pure_after : (x : Outcome A) (s' : S) → (continue x (λ a. pure (f a)) s').1 ≡ s'
  unfolding pure
  pure_after (ok a) s' = refl
  pure_after (err e) s' = refl
  pure_after (panic why) s' = refl

  pub bind-pure : ((m >>= (λ a. pure (f a))) s).1 ≡ (m s).1
  unfolding ◌>>=◌
  bind-pure = pure_after (m s).0 (m s).1
