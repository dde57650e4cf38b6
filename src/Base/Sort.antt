-- ===== src/Base/Sort.antt =====
-- sort.Strings: the order of byte strings, which for UTF-8 is that of the code points.
use Prim.Native.Nat.{suc}
use mathlib.Core.Path.{◌≡◌, refl, ap, ◌∙◌}
use mathlib.Core.Bool.{Bool, false, true, ◌&&◌, ◌||◌}
use mathlib.Core.List.{List, [], ◌∷◌, ◌++◌}
use native.Mathlib.Omega.{arith}
use ship_grip_fim.Base.Tests.{if◌then◌else◌, ltb, ◌==◌}
use ship_grip_fim.Base.Lists.{length}
use ship_grip_fim.Base.Texts.{Text, str_eq, elem, str_eq_iff}
use ship_grip_fim.Base.Maps.{Map, keys, has_key, IsMap}

unfoldable pub text_leb : Text → Text → Bool
text_leb [] t = true
text_leb (x ∷ s) [] = false
text_leb (x ∷ s) (y ∷ t) = ltb x y || ((x == y) && text_leb s t)

unfoldable pub insert_sorted : Text → List Text → List Text
unfolding text_leb
insert_sorted x [] = x ∷ []
insert_sorted x (y ∷ ys) =
    let rest = insert_sorted x ys in if text_leb x y then x ∷ y ∷ ys else y ∷ rest

unfoldable pub sort_strings : List Text → List Text
unfolding insert_sorted
sort_strings [] = []
sort_strings (x ∷ xs) = insert_sorted x (sort_strings xs)

pub length-insert_sorted :
    (x : Text) (ys : List Text) → length (insert_sorted x ys) ≡ suc (length ys)
unfolding insert_sorted
length-insert_sorted x [] = refl
length-insert_sorted x (y ∷ ys) = ground (arith, length-insert_sorted x ys)

pub length-sort_strings : (xs : List Text) → length (sort_strings xs) ≡ length xs
unfolding sort_strings
length-sort_strings [] = refl
length-sort_strings (x ∷ xs) =
    length-insert_sorted x (sort_strings xs) ∙ ap suc (length-sort_strings xs)

-- Sorting changes nothing but the order.
pub elem-insert_sorted :
    (k x : Text) (ys : List Text) → elem k (insert_sorted x ys) ≡ str_eq x k || elem k ys
unfolding insert_sorted
elem-insert_sorted k x [] = refl
elem-insert_sorted k x (y ∷ ys) = ground (arith, elem-insert_sorted k x ys)

pub elem-sort_strings : (k : Text) (xs : List Text) → elem k (sort_strings xs) ≡ elem k xs
unfolding sort_strings
elem-sort_strings k [] = refl
elem-sort_strings k (x ∷ xs) =
    ground (arith, elem-insert_sorted k x (sort_strings xs), elem-sort_strings k xs)

pub elem-keys {ℓ} : {V : Type ℓ} (k : Text) (m : Map V) → elem k (keys m) ≡ has_key k m
unfolding has_key
elem-keys k [] = refl
elem-keys k ((j, v) ∷ m) = ground (arith, elem-keys k m)

-- No text twice.
abbrev pub Distinct : List Text → Type 0
Distinct [] = Unit
Distinct (n ∷ ns) = (elem n ns ≡ false) × Distinct ns

insert_sorted-Distinct :
    (x : Text) (ys : List Text) → elem x ys ≡ false → Distinct ys → Distinct (insert_sorted x ys)
unfolding insert_sorted
insert_sorted-Distinct x [] h d = (refl, tt)
insert_sorted-Distinct x (y ∷ ys) h d =
    ground (
      arith,
      insert_sorted-Distinct x ys,
      elem-insert_sorted y x ys,
      str_eq_iff x y,
      str_eq_iff y x,
    )

pub sort_strings-Distinct : (xs : List Text) → Distinct xs → Distinct (sort_strings xs)
unfolding sort_strings
sort_strings-Distinct [] d = tt
sort_strings-Distinct (x ∷ xs) d =
    insert_sorted-Distinct x (sort_strings xs) (elem-sort_strings x xs ∙ d.0)
      (sort_strings-Distinct xs d.1)

pub keys-Distinct {ℓ} : {V : Type ℓ} (m : Map V) → IsMap m → Distinct (keys m)
unfolding has_key
keys-Distinct [] i = tt
keys-Distinct ((k, v) ∷ m) i = (elem-keys k m ∙ rw i.0, keys-Distinct m i.1)

pub elem-append : (k : Text) (xs ys : List Text) → elem k (xs ++ ys) ≡ elem k xs || elem k ys
elem-append k [] ys = refl
elem-append k (x ∷ xs) ys = ground (arith, elem-append k xs ys)

pub Distinct-append_one :
    (xs : List Text) (k : Text) → Distinct xs → elem k xs ≡ false → Distinct (xs ++ k ∷ [])
Distinct-append_one [] k d h = (refl, tt)
Distinct-append_one (x ∷ xs) k d h =
    ground
      (arith, Distinct-append_one xs k, elem-append x xs (k ∷ []), str_eq_iff k x, str_eq_iff x k)
