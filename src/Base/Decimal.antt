-- ===== src/Base/Decimal.antt =====
-- The decimal digits of a number, as fmt's %d and strconv.Itoa write them.
use Prim.Native.Nat.{ℕ, zero, suc, ◌+◌, ◌-◌, ◌*◌, ◌/◌, ◌%◌, ◌<◌}
use mathlib.Core.Path.{◌≡◌, refl, ap, ◌∙◌}
use mathlib.Core.Logic.{inl, inr}
use mathlib.Core.List.{[], ◌∷◌}
use native.Mathlib.Omega.{arith}
use ship_grip_fim.Base.Tests.{ltb, if◌then◌else◌, Bool-cases}
use ship_grip_fim.Base.Lists.{All}
use ship_grip_fim.Base.Texts.{Text}

-- The digits of `n` in front of `acc`; the fuel is more than the number.
unfoldable pub digits : ℕ → ℕ → Text → Text
digits zero n acc = acc
digits (suc fuel) n acc =
    let rest = digits fuel (n / 10) ((b'0' + n % 10) ∷ acc) in
    if ltb n 10 then (b'0' + n % 10) ∷ acc else rest

unfoldable pub decimal : ℕ → Text
unfolding digits
decimal n = digits (suc n) n []

abbrev pub IsDigit : ℕ → Type 0
IsDigit c = (b'0' < suc c) × (c < 58)

digits-IsDigit : (fuel n : ℕ) (acc : Text) → All IsDigit acc → All IsDigit (digits fuel n acc)
unfolding digits
digits-IsDigit zero n acc h = h
digits-IsDigit (suc fuel) n acc h =
    let d : IsDigit (b'0' + n % 10) = omega arith in
    elim (Bool-cases (ltb n 10)) [
      | inl e ↦ rw e (d, h)
      | inr e ↦ rw e (digits-IsDigit fuel (n / 10) ((b'0' + n % 10) ∷ acc) (d, h))
    ]

pub decimal-IsDigit : (n : ℕ) → All IsDigit (decimal n)
unfolding decimal
decimal-IsDigit n = digits-IsDigit (suc n) n [] tt

-- The number that digits stand for, read from the left.
unfoldable pub read_digits : ℕ → Text → ℕ
read_digits n [] = n
read_digits n (c ∷ s) = read_digits (10 * n + (c - b'0')) s

read-digits :
    (fuel n : ℕ) (acc : Text) → n < fuel → read_digits 0 (digits fuel n acc) ≡ read_digits n acc
unfolding digits read_digits
read-digits zero n acc h = absurd (omega arith)
read-digits (suc fuel) n acc h = elim (Bool-cases (ltb n 10)) [
  | inl e ↦
      let k : 10 * 0 + (b'0' + n % 10 - b'0') ≡ n = ground arith in
      rw e (ap (λ m. read_digits m acc) k)
  | inr e ↦
      let k : 10 * (n / 10) + (b'0' + n % 10 - b'0') ≡ n = omega arith in
      rw e (
        read-digits fuel (n / 10) ((b'0' + n % 10) ∷ acc) (ground arith)
        ∙ ap (λ m. read_digits m acc) k)
]

pub read-decimal : (n : ℕ) → read_digits 0 (decimal n) ≡ n
unfolding decimal read_digits
read-decimal n = read-digits (suc n) n [] (omega arith)

digits-ne-nil :
    (fuel n : ℕ) (c : ℕ) (acc : Text) → (d : ℕ) × (s : Text) × (digits fuel n (c ∷ acc) ≡ d ∷ s)
unfolding digits
digits-ne-nil zero n c acc = (c, acc, refl)
digits-ne-nil (suc fuel) n c acc = elim (Bool-cases (ltb n 10)) [
  | inl e ↦ (b'0' + n % 10, c ∷ acc, rw e refl)
  | inr e ↦ rw e (digits-ne-nil fuel (n / 10) (b'0' + n % 10) (c ∷ acc))
]

pub decimal-ne-nil : (n : ℕ) → (d : ℕ) × (s : Text) × (decimal n ≡ d ∷ s)
unfolding decimal digits
decimal-ne-nil n = elim (Bool-cases (ltb n 10)) [
  | inl e ↦ (b'0' + n % 10, [], rw e refl)
  | inr e ↦ rw e (digits-ne-nil n (n / 10) (b'0' + n % 10) [])
]
