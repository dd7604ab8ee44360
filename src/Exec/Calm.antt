-- ===== src/Exec/Calm.antt =====
-- Effectful code that never panics: one rule for each way in which a program is put together.
use mcg_osd_deployer.Base.{
  ◌≡◌, refl, String, Bool, true, false, Option, none, some, List, [], ◌∷◌, if◌then◌else◌,
}
use mcg_osd_deployer.Exec.{
  Error, Outcome, ok, err, panic, Exec, pure, raise, gets, lift, wrapping, wrap_outcome, ◌>>=◌,
  continue, unless_error, for_each, caught, caught_outcome,
}

-- It is a value or an error.
abbrev pub IsCalm : {A : Type 0} → Outcome A → Type 0
IsCalm (ok a) = Unit {0}
IsCalm (err e) = Unit {0}
IsCalm (panic why) = ⊥

-- `m` returns or fails, in every state.
pub record Calm {S A : Type 0} (m : Exec S A) : Type 0 where
  pub at : (s : S) → IsCalm (m s).0

module _ {A : Type 0} where
  wrap_outcome-IsCalm : (why : String) (x : Outcome A) → IsCalm x → IsCalm (wrap_outcome why x)
  wrap_outcome-IsCalm why (ok a) h = tt
  wrap_outcome-IsCalm why (err e) h = tt
  wrap_outcome-IsCalm why (panic p) h = h

  caught_outcome-IsCalm : (x : Outcome A) → IsCalm x → IsCalm (caught_outcome x)
  caught_outcome-IsCalm (ok a) h = tt
  caught_outcome-IsCalm (err e) h = tt
  caught_outcome-IsCalm (panic p) h = h

module _ {S A : Type 0} where
  pub Calm-pure : (a : A) → Calm {S = S} (pure a)
  unfolding pure
  Calm-pure a = record { at = λ s. tt }

  pub Calm-raise : (e : Error) → Calm {S = S} (raise {A = A} e)
  unfolding raise
  Calm-raise e = record { at = λ s. tt }

  pub Calm-gets : (f : S → A) → Calm (gets f)
  unfolding gets
  Calm-gets f = record { at = λ s. tt }

  pub Calm-lift : (x : Outcome A) → IsCalm x → Calm {S = S} (lift x)
  unfolding lift
  Calm-lift x h = record { at = λ s. h }

  pub Calm-wrapping : (why : String) (m : Exec S A) → Calm m → Calm (wrapping why m)
  unfolding wrapping
  Calm-wrapping why m k = record { at = λ s. wrap_outcome-IsCalm why (m s).0 (k.at s) }

  pub Calm-caught : (m : Exec S A) → Calm m → Calm (caught m)
  unfolding caught
  Calm-caught m k = record { at = λ s. caught_outcome-IsCalm (m s).0 (k.at s) }

  pub Calm-if : (b : Bool) (m n : Exec S A) → Calm m → Calm n → Calm (if b then m else n)
  Calm-if true m n km kn = km
  Calm-if false m n km kn = kn

pub Calm-unless_error :
    {S : Type 0} (f : Error → Error) (e : Option Error) → Calm (unless_error {S = S} f e)
Calm-unless_error f none = Calm-pure tt
Calm-unless_error f (some e) = Calm-raise (f e)

module _ {S A B : Type 0} where
  -- The rest may rely on what the first part has returned.
  continue-IsCalm :
      (x : Outcome A) (s : S) (f : A → Exec S B)
      → IsCalm x
      → ((a : A) → x ≡ ok a → IsCalm (f a s).0)
      → IsCalm (continue x f s).0
  continue-IsCalm (ok a) s f h k = k a refl
  continue-IsCalm (err e) s f h k = tt
  continue-IsCalm (panic p) s f h k = h

  pub Calm-after :
      (m : Exec S A) (f : A → Exec S B)
      → Calm m
      → ((a : A) (s : S) → (m s).0 ≡ ok a → Calm (f a))
      → Calm (m >>= f)
  unfolding ◌>>=◌
  Calm-after m f km kf = record {
    at = λ s. continue-IsCalm (m s).0 (m s).1 f (km.at s) (λ a e. (kf a s e).at (m s).1);
  }

  pub Calm-bind :
      (m : Exec S A) (f : A → Exec S B) → Calm m → ((a : A) → Calm (f a)) → Calm (m >>= f)
  Calm-bind m f km kf = Calm-after m f km (λ a s e. kf a)

module _ {S A : Type 0} where
  pub Calm-for_each :
      (f : A → Exec S (Unit {0})) (xs : List A) → ((a : A) → Calm (f a)) → Calm (for_each f xs)
  unfolding for_each
  Calm-for_each f [] k = Calm-pure tt
  Calm-for_each f (x ∷ xs) k = Calm-bind _ _ (k x) (λ _. Calm-for_each f xs k)

pub ruleset calm_rules = (
  Calm-pure, Calm-raise, Calm-gets, Calm-lift, Calm-wrapping, Calm-caught, Calm-if,
  Calm-unless_error, Calm-bind, Calm-for_each,
)
