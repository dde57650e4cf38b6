-- ===== src/Base/Splitting.antt =====
-- Splitting undoes joining: pieces and lines that hold no separator come back.
use mathlib.Core.Path.{◌≡◌, refl, ap, ◌∙◌}
use mathlib.Core.Bool.{Bool, true, false}
use mathlib.Core.List.{List, [], ◌∷◌, ◌++◌}
use mathlib.Core.Logic.{inl, inr}
use Prim.Native.Nat.{ℕ, suc, ◌<◌}
use native.Mathlib.Omega.{arith}
use ship_grip_fim.Base.Tests.{◌==◌, Bool-cases}
use ship_grip_fim.Base.Lists.{any, All}
use ship_grip_fim.Base.Texts.{
  Text, split_by, split, split_n, drop_last_empty, drop_cr, byte_length, scan_raw, scan_lines,
}

pub split_by-append :
    (sep : ℕ → Bool) (l : Text) (c : ℕ) (s : Text)
    → any sep l ≡ false
    → sep c ≡ true
    → split_by sep (l ++ (c ∷ s)) ≡ l ∷ split_by sep s
unfolding split_by
split_by-append sep [] c s h hc = rw hc
split_by-append sep (d ∷ l) c s h hc = ground (arith, split_by-append sep l c s)

pub split_by_whole : (sep : ℕ → Bool) (l : Text) → any sep l ≡ false → split_by sep l ≡ l ∷ []
unfolding split_by
split_by_whole sep [] h = refl
split_by_whole sep (d ∷ l) h = ground (arith, split_by_whole sep l)

pub split_n-append :
    (c n : ℕ) (l s : Text)
    → any (λ d. d == c) l ≡ false
    → split_n c (suc (suc n)) (l ++ (c ∷ s)) ≡ l ∷ split_n c (suc n) s
unfolding split_n
split_n-append c n [] s h = ground arith
split_n-append c n (d ∷ l) s h = ground (arith, split_n-append c n l s)

-- A text written as lines.
abbrev pub unlines : List Text → Text
unlines [] = []
unlines (l ∷ ls) = l ++ (10 ∷ unlines ls)

pub split_by-ne-nil :
    (sep : ℕ → Bool) (s : Text) → (p : Text) × (ps : List Text) × (split_by sep s ≡ p ∷ ps)
unfolding split_by
split_by-ne-nil sep [] = ([], [], refl)
split_by-ne-nil sep (c ∷ s) = elim (Bool-cases (sep c)) [
  | inl e ↦ ([], split_by sep s, rw e)
  | inr e ↦ let (p, ps, q) = split_by-ne-nil sep s in (c ∷ p, ps, rw (e, q))
]

drop_last_empty-cons :
    (l : Text) (sep : ℕ → Bool) (s : Text)
    → drop_last_empty (l ∷ split_by sep s) ≡ l ∷ drop_last_empty (split_by sep s)
unfolding drop_last_empty
drop_last_empty-cons [] sep s = let (p, ps, q) = split_by-ne-nil sep s in rw q
drop_last_empty-cons (c ∷ l) sep s = refl

-- A line that a scanner with a buffer of `limit` bytes returns as it was written.
pub record IsLine (limit : ℕ) (l : Text) : Type 0 where
  pub one_line : any (λ d. d == 10) l ≡ false
  pub no_cr : drop_cr l ≡ l
  pub fits : byte_length l < limit

pub lines-unlines :
    (limit : ℕ) (ls : List Text)
    → All (IsLine limit) ls
    → drop_last_empty (split 10 (unlines ls)) ≡ ls
unfolding split drop_last_empty
lines-unlines limit [] h = refl
lines-unlines limit (l ∷ ls) h =
    rw (split_by-append (λ d. d == 10) l 10 (unlines ls) h.0.one_line refl) (
      rw (drop_last_empty-cons l (λ d. d == 10) (unlines ls))
        (ap (λ r. l ∷ r) (lines-unlines limit ls h.1)))

scan_raw_whole :
    (limit : ℕ) (ls : List Text) → All (IsLine limit) ls → scan_raw limit ls ≡ (ls, false)
unfolding scan_raw
scan_raw_whole limit [] h = refl
scan_raw_whole limit (l ∷ ls) h =
    rw (scan_raw_whole limit ls h.1) (ground (arith, h.0.no_cr, h.0.fits))

-- What was written as lines is scanned as those lines.
pub scan_lines-unlines :
    (limit : ℕ) (ls : List Text)
    → All (IsLine limit) ls
    → scan_lines limit (unlines ls) ≡ (ls, false)
unfolding scan_lines
scan_lines-unlines limit ls h = rw (lines-unlines limit ls h) (scan_raw_whole limit ls h)

pub split-unlines :
    (ls : List Text)
    → All (λ l. any (λ d. d == 10) l ≡ false) ls
    → split 10 (unlines ls) ≡ ls ++ [] ∷ []
unfolding split
split-unlines [] h = refl
split-unlines (l ∷ ls) h =
    split_by-append (λ d. d == 10) l 10 (unlines ls) h.0 refl
    ∙ ap (λ r. l ∷ r) (split-unlines ls h.1)
