-- ===== src/Base/Trimming.antt =====
-- Texts that trimming leaves alone.
use mathlib.Core.Path.{◌≡◌, refl, ap}
use mathlib.Core.Bool.{Bool, false, ◌||◌}
use mathlib.Core.List.{List, [], ◌∷◌, ◌++◌}
use Prim.Native.Nat.{ℕ, ◌+◌}
use native.Mathlib.Omega.{arith}
use ship_grip_fim.Base.Lists.{any, is_nil}
use ship_grip_fim.Base.Texts.{Text, is_space, trim_right, trim_space, drop_cr, byte_length}

-- What ends in a character that is no space, put behind anything.
pub trim_right-append :
    (s t : Text) → trim_right t ≡ t → is_nil t ≡ false → trim_right (s ++ t) ≡ s ++ t
unfolding trim_right
trim_right-append [] t h n = h
trim_right-append (c ∷ s) [] h n = cc
trim_right-append (c ∷ []) (d ∷ t) h n = ground (arith, trim_right-append [] (d ∷ t) h n)
trim_right-append (c ∷ b ∷ s) (d ∷ t) h n = ground (arith, trim_right-append (b ∷ s) (d ∷ t) h n)

pub drop_cr-append : (s t : Text) → drop_cr t ≡ t → is_nil t ≡ false → drop_cr (s ++ t) ≡ s ++ t
unfolding drop_cr
drop_cr-append [] t h n = h
drop_cr-append (c ∷ s) [] h n = cc
drop_cr-append (c ∷ []) (d ∷ t) h n = ap (λ r. c ∷ r) h
drop_cr-append (c ∷ b ∷ s) (d ∷ t) h n = ap (λ r. c ∷ r) (drop_cr-append (b ∷ s) (d ∷ t) h n)

pub drop_cr-trimmed : (s : Text) → trim_right s ≡ s → drop_cr s ≡ s
unfolding trim_right drop_cr is_space
drop_cr-trimmed [] h = refl
drop_cr-trimmed (c ∷ []) h = ground arith
drop_cr-trimmed (c ∷ d ∷ s) h =
    ap (λ r. c ∷ r) (drop_cr-trimmed (d ∷ s) (unfold trim_right in ground arith))

-- A first character that is no space.
pub trim_space_fixed :
    (c : ℕ) (s : Text)
    → is_space c ≡ false
    → trim_right (c ∷ s) ≡ c ∷ s
    → trim_space (c ∷ s) ≡ c ∷ s
unfolding trim_space
trim_space_fixed c s h k = rw h k

pub byte_length-append : (s t : Text) → byte_length (s ++ t) ≡ byte_length s + byte_length t
unfolding byte_length
byte_length-append [] t = omega arith
byte_length-append (c ∷ s) t = omega (arith, byte_length-append s t)

module _ {ℓ} {A : Type ℓ} where
  pub any-append : (p : A → Bool) (xs ys : List A) → any p (xs ++ ys) ≡ any p xs || any p ys
  any-append p [] ys = refl
  any-append p (x ∷ xs) ys = ground (arith, any-append p xs ys)

-- A text without a space.
trim_right_word : (s : Text) → any is_space s ≡ false → trim_right s ≡ s
unfolding trim_right is_space
trim_right_word [] h = refl
trim_right_word (c ∷ s) h = ground (arith, trim_right_word s)

pub trim_space_word : (s : Text) → any is_space s ≡ false → trim_space s ≡ s
unfolding trim_space
trim_space_word [] h = refl
trim_space_word (c ∷ s) h = trim_space_fixed c s (ground arith) (trim_right_word (c ∷ s) h)
