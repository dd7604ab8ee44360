-- ===== src/Utils/Slices.antt =====
-- What `contains`, `remove` and `map_items` do to slices of strings.
use mcg_osd_deployer.Base.{
  ◌≡◌, refl, ap, String, true, false, List, [], ◌∷◌, ◌++◌, map, ◌==◌, if◌then◌else◌, eq_iff, arith,
}
use mcg_osd_deployer.Utils.{contains, remove, map_items}

-- Of a slice from which `s` was removed, a string is contained exactly if it is another one and the
-- slice contained it.
pub contains-remove :
    (xs : List String) (s t : String)
    → contains (remove xs s) t ≡ (if s == t then false else contains xs t)
unfolding contains remove
contains-remove [] s t = ground (arith, eq_iff s t)
contains-remove (x ∷ xs) s t =
    ground (arith, eq_iff x s, eq_iff x t, eq_iff s t, contains-remove xs s t)

pub contains-append :
    (xs ys : List String) (s : String)
    → contains (xs ++ ys) s ≡ (if contains xs s then true else contains ys s)
unfolding contains
contains-append [] ys s = refl
contains-append (x ∷ xs) ys s = ground (arith, contains-append xs ys s)

pub contains_self : (s : String) → contains (s ∷ []) s ≡ true
unfolding contains
contains_self s = ground (arith, eq_iff s s)

pub remove_absent : (xs : List String) (s : String) → contains xs s ≡ false → remove xs s ≡ xs
unfolding contains remove
remove_absent [] s h = refl
remove_absent (x ∷ xs) s h = ground (arith, remove_absent xs s)

pub remove-append :
    (xs ys : List String) (s : String) → remove (xs ++ ys) s ≡ remove xs s ++ remove ys s
unfolding remove
remove-append [] ys s = refl
remove-append (x ∷ xs) ys s = ground (arith, remove-append xs ys s)

pub map_items-map : (xs : List String) (f : String → String) → map_items xs f ≡ map f xs
unfolding map_items
map_items-map [] f = refl
map_items-map (x ∷ xs) f = ground (arith, map_items-map xs f)

remove_self : (s : String) → remove (s ∷ []) s ≡ []
unfolding remove
remove_self s = ground (arith, eq_iff s s)

append_nil : (xs : List String) → xs ++ [] ≡ xs
append_nil [] = refl
append_nil (x ∷ xs) = ap (◌∷◌ x) (append_nil xs)

-- A string that was appended to a slice without it is taken off again, and the slice is as before.
pub remove-append_self :
    (xs : List String) (s : String) → contains xs s ≡ false → remove (xs ++ (s ∷ [])) s ≡ xs
remove-append_self xs s h = rw (remove-append, remove_absent xs s h, remove_self) (append_nil xs)
