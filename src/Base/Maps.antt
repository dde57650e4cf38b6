-- ===== src/Base/Maps.antt =====
-- Go's `map[string]V` as an association list. Go ranges over a map in an unspecified order: here
-- it is the order of the list, and statements about a range are about lookups or counts.
use Prim.Native.Nat.{suc}
use mathlib.Core.Path.{◌≡◌, refl}
use mathlib.Core.Bool.{Bool, true, false}
use mathlib.Core.Option.{Option, none, some}
use mathlib.Core.List.{List, [], ◌∷◌}
use native.Mathlib.Omega.{arith}
use mathlib.Core.Logic.{◌⊎◌, inl, inr}
use ship_grip_fim.Base.Tests.{if◌then◌else◌, Bool-cases}
use ship_grip_fim.Base.Lists.{length}
use ship_grip_fim.Base.Texts.{Text, str_eq, str_eq_iff, str_eq→eq}

abbrev pub Map {ℓ} : Type ℓ → Type ℓ
Map V = List (Text × V)

module _ {ℓ} {V : Type ℓ} where
  unfoldable pub lookup : Text → Map V → Option V
  lookup k [] = none
  lookup k ((j, v) ∷ m) = if str_eq j k then some v else lookup k m

  unfoldable pub insert : Text → V → Map V → Map V
  insert k v [] = (k, v) ∷ []
  insert k v ((j, w) ∷ m) =
      let rest = insert k v m in if str_eq j k then (k, v) ∷ m else (j, w) ∷ rest

  unfoldable pub remove : Text → Map V → Map V
  remove k [] = []
  remove k ((j, v) ∷ m) = let rest = remove k m in if str_eq j k then rest else (j, v) ∷ rest

  abbrev pub is_some : Option V → Bool
  is_some none = false
  is_some (some v) = true

  unfoldable pub has_key : Text → Map V → Bool
  unfolding lookup
  has_key k m = is_some (lookup k m)

  abbrev pub keys : Map V → List Text
  keys [] = []
  keys ((k, v) ∷ m) = k ∷ keys m

  -- No key twice.
  abbrev pub IsMap : Map V → Type ℓ
  IsMap [] = Unit
  IsMap ((k, v) ∷ m) = (lookup k m ≡ none) × IsMap m

  pub lookup-insert :
      (k j : Text) (v : V) (m : Map V)
      → lookup j (insert k v m) ≡ (if str_eq k j then some v else lookup j m)
  unfolding lookup insert
  lookup-insert k j v [] = refl
  lookup-insert k j v ((i, w) ∷ m) =
      ground (arith, str_eq_iff k j, str_eq_iff i k, str_eq_iff i j, lookup-insert k j v m)

  pub lookup-remove :
      (k j : Text) (m : Map V) → lookup j (remove k m) ≡ (if str_eq k j then none else lookup j m)
  unfolding lookup remove
  lookup-remove k j [] = ground arith
  lookup-remove k j ((i, w) ∷ m) =
      ground (arith, str_eq_iff k j, str_eq_iff i k, str_eq_iff i j, lookup-remove k j m)

  pub insert-IsMap : (k : Text) (v : V) (m : Map V) → IsMap m → IsMap (insert k v m)
  unfolding insert lookup
  insert-IsMap k v [] h = (refl, tt)
  insert-IsMap k v ((j, w) ∷ m) h =
      ground (arith, str_eq_iff j k, str_eq_iff k j, insert-IsMap k v m, lookup-insert k j v m)

  pub remove-IsMap : (k : Text) (m : Map V) → IsMap m → IsMap (remove k m)
  unfolding remove lookup
  remove-IsMap k [] h = tt
  remove-IsMap k ((j, w) ∷ m) h = ground (arith, remove-IsMap k m, lookup-remove k j m)

  -- What is found after an insertion is what was inserted, or was there.
  pub lookup-insert_cases :
      (k j : Text) (u v : V) (m : Map V)
      → lookup j (insert k u m) ≡ some v
      → ((j ≡ k) × (v ≡ u)) ⊎ (lookup j m ≡ some v)
  lookup-insert_cases k j u v m h = elim (Bool-cases (str_eq k j)) [
    | inl e ↦ inl (cc (str_eq→eq k j e), ground (arith, lookup-insert k j u m))
    | inr e ↦ inr (ground (arith, lookup-insert k j u m))
  ]

  pub remove_absent : (k : Text) (m : Map V) → lookup k m ≡ none → remove k m ≡ m
  unfolding remove lookup
  remove_absent k [] h = refl
  remove_absent k ((j, v) ∷ m) h = ground (arith, remove_absent k m)

  -- Removing a key that a map has takes one entry away.
  pub length-remove :
      (k : Text) (m : Map V) → IsMap m → has_key k m ≡ true → length m ≡ suc (length (remove k m))
  unfolding remove has_key
  length-remove k [] i h = cc
  length-remove k ((j, v) ∷ m) i h =
      ground (arith, length-remove k m i.1, str_eq_iff j k, i.0, remove_absent k m)
