-- ===== src/Exec.antt =====
-- Go code with effects: a function of the state that returns, fails with an `error` or panics.
-- What was done before a failure stays done, so the state comes back in every case.
pub mod Keeps
pub mod Settled
pub mod Runs
pub mod Calm
use mcg_osd_deployer.Base.{
  String, Bool, if◌then◌else◌, Option, none, some, List, [], ◌∷◌, ◌⊎◌, inl, inr,
}

-- A Go `error`: an answer of the API server with its reason, `fmt.Errorf` without `%w`, and with.
pub data Error : Type 0 where
  status : String → Error
  errorf : String → Error
  wrapf : String → Error → Error

pub data Outcome {ℓ} (A : Type ℓ) : Type ℓ where
  ok : A → Outcome A
  err : Error → Outcome A
  panic : String → Outcome A

abbrev pub Exec {ℓ} : Type ℓ → Type ℓ → Type ℓ
Exec S A = S → Outcome A × S

-- `return fmt.Errorf("...: %w", err)` around a failing call.
abbrev pub wrap_outcome {ℓ} : {A : Type ℓ} → String → Outcome A → Outcome A
wrap_outcome why (ok a) = ok a
wrap_outcome why (err e) = err (wrapf why e)
wrap_outcome why (panic p) = panic p

module _ {ℓ} {S A : Type ℓ} where
  unfoldable pub panics : String → Exec S A
  panics why s = (panic why, s)

  unfoldable pub raise : Error → Exec S A
  raise e s = (err e, s)

  unfoldable pub pure : A → Exec S A
  pure a s = (ok a, s)

  unfoldable pub lift : Outcome A → Exec S A
  lift x s = (x, s)

  unfoldable pub gets : (S → A) → Exec S A
  gets f s = (ok (f s), s)

  unfoldable pub wrapping : String → Exec S A → Exec S A
  wrapping why m s = let (r, s') = m s in (wrap_outcome why r, s')

module _ {ℓ} {S A B : Type ℓ} where
  abbrev pub continue : Outcome A → (A → Exec S B) → Exec S B
  continue (panic why) f s = (panic why, s)
  continue (err e) f s = (err e, s)
  continue (ok a) f s = f a s

  infixl 10 ◌>>=◌ ◌>>◌
  unfoldable pub ◌>>=◌ : Exec S A → (A → Exec S B) → Exec S B
  ◌>>=◌ m f s = let (outcome, after) = m s in continue outcome f after

  abbrev pub ◌>>◌ : Exec S A → Exec S B → Exec S B
  m >> n = m >>= λ _. n

-- An `if` with no `else`.
abbrev pub when : {S : Type 0} → Bool → Exec S (Unit {0}) → Exec S (Unit {0})
when b m = if b then m else pure tt

-- `if err != nil { return fmt.Errorf("...: %w", err) }`
abbrev pub unless_error : {S : Type 0} → (Error → Error) → Option Error → Exec S (Unit {0})
unless_error f none = pure tt
unless_error f (some e) = raise (f e)

-- `for _, item := range items { ... }` with a body that may return an error.
unfoldable pub for_each : {S A : Type 0} → (A → Exec S (Unit {0})) → List A → Exec S (Unit {0})
for_each f [] = pure tt
for_each f (x ∷ xs) = f x >> for_each f xs

-- `if err == nil { ... }`: a failure becomes a value, a panic does not.
abbrev pub caught_outcome : {A : Type 0} → Outcome A → Outcome (Error ⊎ A)
caught_outcome (ok a) = ok (inr a)
caught_outcome (err e) = ok (inl e)
caught_outcome (panic p) = panic p

unfoldable pub caught : {S A : Type 0} → Exec S A → Exec S (Error ⊎ A)
caught m s = let (r, s') = m s in (caught_outcome r, s')
