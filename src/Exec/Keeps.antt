-- ===== src/Exec/Keeps.antt =====
-- Invariants of effectful code: one rule for each way in which a program is put together.
use mcg_osd_deployer.Base.{String, Bool, true, false, Option, none, some, List, [], ◌∷◌}
use mcg_osd_deployer.Base.{if◌then◌else◌}
use mcg_osd_deployer.Exec.{
  Error, Outcome, ok, err, panic, Exec, pure, raise, panics, gets, lift, wrapping, ◌>>=◌, continue,
  unless_error, for_each, caught,
}

-- `m` keeps `I`, whether it returns, fails or panics.
pub record Keeps {S A : Type 0} (I : S → Type 0) (m : Exec S A) : Type 0 where
  pub at : (s : S) → I s → I (m s).1

module _ {S A : Type 0} {I : S → Type 0} where
  pub Keeps-pure : (a : A) → Keeps I (pure a)
  unfolding pure
  Keeps-pure a = record { at = λ s h. h }

  pub Keeps-raise : (e : Error) → Keeps I (raise {A = A} e)
  unfolding raise
  Keeps-raise e = record { at = λ s h. h }

  pub Keeps-panics : (why : String) → Keeps I (panics {A = A} why)
  unfolding panics
  Keeps-panics why = record { at = λ s h. h }

  pub Keeps-gets : (f : S → A) → Keeps I (gets f)
  unfolding gets
  Keeps-gets f = record { at = λ s h. h }

  pub Keeps-lift : (x : Outcome A) → Keeps I (lift x)
  unfolding lift
  Keeps-lift x = record { at = λ s h. h }

  pub Keeps-wrapping : (why : String) (m : Exec S A) → Keeps I m → Keeps I (wrapping why m)
  unfolding wrapping
  Keeps-wrapping why m k = record { at = λ s h. k.at s h }

  pub Keeps-caught : (m : Exec S A) → Keeps I m → Keeps I (caught m)
  unfolding caught
  Keeps-caught m k = record { at = λ s h. k.at s h }

  pub Keeps-if : (b : Bool) (m n : Exec S A) → Keeps I m → Keeps I n → Keeps I (if b then m else n)
  Keeps-if true m n km kn = km
  Keeps-if false m n km kn = kn

pub Keeps-unless_error :
    {S : Type 0} {I : S → Type 0} (f : Error → Error) (e : Option Error)
    → Keeps I (unless_error {S = S} f e)
Keeps-unless_error f none = Keeps-pure tt
Keeps-unless_error f (some e) = Keeps-raise (f e)

module _ {S A B : Type 0} {I : S → Type 0} where
  pub Keeps-continue :
      (r : Outcome A) (f : A → Exec S B) → ((a : A) → Keeps I (f a)) → Keeps I (continue r f)
  Keeps-continue (ok a) f k = record { at = λ s h. (k a).at s h }
  Keeps-continue (err e) f k = record { at = λ s h. h }
  Keeps-continue (panic p) f k = record { at = λ s h. h }

  pub Keeps-bind :
      (m : Exec S A) (f : A → Exec S B) → Keeps I m → ((a : A) → Keeps I (f a)) → Keeps I (m >>= f)
  unfolding ◌>>=◌
  Keeps-bind m f km kf = record {
    at = λ s h. let (r, s') = m s in (Keeps-continue r f kf).at s' (km.at s h);
  }

module _ {S A : Type 0} {I : S → Type 0} where
  pub Keeps-for_each :
      (f : A → Exec S (Unit {0})) (xs : List A)
      → ((a : A) → Keeps I (f a))
      → Keeps I (for_each f xs)
  unfolding for_each
  Keeps-for_each f [] k = Keeps-pure tt
  Keeps-for_each f (x ∷ xs) k = Keeps-bind _ _ (k x) (λ _. Keeps-for_each f xs k)

pub ruleset keeps_rules = (
  Keeps-pure, Keeps-raise, Keeps-panics, Keeps-gets, Keeps-lift, Keeps-wrapping, Keeps-caught,
  Keeps-if, Keeps-unless_error, Keeps-bind, Keeps-for_each,
)
