-- ===== src/Base/Dict.antt =====
-- Go's `map[string]T` as an association list; `nil` maps and the order of iteration are treated
-- where the code depends on them.
use Prim.Native.String.{String}
use mathlib.Core.Path.{◌≡◌, refl}
use mathlib.Core.Logic.{inl, inr}
use mathlib.Core.Bool.{false}
use mathlib.Core.Option.{Option, none, some}
use mathlib.Core.List.{List, [], ◌∷◌}
use native.Mathlib.Omega.{arith}
use text.Mathlib.TextEquality.{eq_iff}
use mcg_osd_deployer.Base.Tests.{◌==◌, if◌then◌else◌, Bool-cases}

abbrev pub Dict {ℓ} : Type ℓ → Type ℓ
Dict V = List (String × V)

module _ {ℓ} {V : Type ℓ} where
  -- `m[key]`
  unfoldable pub lookup : String → Dict V → Option V
  lookup key [] = none
  lookup key ((other, value) ∷ rest) = if other == key then some value else lookup key rest

  -- `delete(m, key)`
  unfoldable pub erase : String → Dict V → Dict V
  erase key [] = []
  erase key ((other, value) ∷ rest) =
      let kept = erase key rest in if other == key then kept else (other, value) ∷ kept

  -- `m[key] = value`
  unfoldable pub insert : String → V → Dict V → Dict V
  insert key value [] = (key, value) ∷ []
  insert key value ((other, old) ∷ rest) =
      let changed = insert key value rest in
      if other == key then (key, value) ∷ rest else (other, old) ∷ changed

  pub lookup-erase :
      (key asked : String) (d : Dict V)
      → lookup asked (erase key d) ≡ (if key == asked then none else lookup asked d)
  unfolding lookup erase
  lookup-erase key asked [] = ground (arith, eq_iff key asked)
  lookup-erase key asked ((other, value) ∷ rest) =
      ground
        (arith, eq_iff other key, eq_iff other asked, eq_iff key asked, lookup-erase key asked rest)

  pub lookup-insert :
      (key asked : String) (value : V) (d : Dict V)
      → lookup asked (insert key value d) ≡ (if key == asked then some value else lookup asked d)
  unfolding lookup insert
  lookup-insert key asked value [] = refl
  lookup-insert key asked value ((other, old) ∷ rest) = ground (
    arith,
    eq_iff other key,
    eq_iff other asked,
    eq_iff key asked,
    lookup-insert key asked value rest,
  )

  -- The value that was set last stays.
  pub insert-insert :
      (key : String) (old new : V) (d : Dict V)
      → insert key new (insert key old d) ≡ insert key new d
  unfolding insert
  insert-insert key old new [] = ground (arith, eq_iff key key)
  insert-insert key old new ((other, value) ∷ rest) =
      ground (arith, eq_iff key key, eq_iff other key, insert-insert key old new rest)

  -- A value is replaced in its place, before another key's.
  pub insert-insert-insert :
      (key key' : String) (old new value : V) (d : Dict V)
      → (key' == key) ≡ false
      → insert key new (insert key' value (insert key old d)) ≡ insert key' value (insert key new d)
  unfolding insert
  insert-insert-insert key key' old new value [] apart =
      ground (arith, eq_iff key key', eq_iff key' key, eq_iff key key, apart)
  insert-insert-insert key key' old new value ((other, was) ∷ rest) apart = ground (
    arith,
    eq_iff key key',
    eq_iff key' key,
    eq_iff key key,
    eq_iff other key,
    eq_iff other key',
    apart,
    insert-insert-insert key key' old new value rest apart,
    insert-insert key old new rest,
  )

  -- A key that has its value already is left alone.
  pub insert-lookup :
      (key : String) (value : V) (d : Dict V) → lookup key d ≡ some value → insert key value d ≡ d
  unfolding lookup insert
  insert-lookup key value [] h = cc
  insert-lookup key value ((other, old) ∷ rest) h = elim (Bool-cases (other == key)) [
    | inl e ↦
        let found : some old ≡ some value = rw e at h in
        rw e (ground (arith, eq_iff other key, found))
    | inr e ↦ rw (e, insert-lookup key value rest (rw e at h))
  ]
