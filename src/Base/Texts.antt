-- ===== src/Base/Texts.antt =====
-- Go's strings as lists of code points (valid UTF-8), and the functions of the standard library
-- that the program calls: strings.Split, SplitN, Fields, TrimSpace, HasPrefix, Join, ContainsAny,
-- ReplaceAll with an empty replacement, and the line scanner of bufio.
use Prim.Native.Nat.{ℕ, zero, suc, ◌+◌, ◌-◌}
use Prim.Native.Char.{code}
use Prim.Native.String.{String}
use mathlib.Core.Path.{◌≡◌, refl, ap}
use mathlib.Core.Logic.{◌↔◌}
use mathlib.Core.Bool.{Bool, true, false, ◌&&◌, ◌||◌, not}
use mathlib.Core.List.{List, [], ◌∷◌, ◌++◌}
use native.Mathlib.Omega.{arith}
use ship_grip_fim.Base.Tests.{leb, ltb, ◌==◌, if◌then◌else◌}
use ship_grip_fim.Base.Lists.{length, keep, any, is_nil}

abbrev pub Text : Type 0
Text = List ℕ

-- The code points of a literal.
unfoldable pub lit : String → Text
lit String.[] = []
lit (String.◌∷◌ c s) = code c ∷ lit s

unfoldable pub str_eq : Text → Text → Bool
str_eq [] [] = true
str_eq [] (y ∷ t) = false
str_eq (x ∷ s) [] = false
str_eq (x ∷ s) (y ∷ t) = (x == y) && str_eq s t

pub str_eq_refl : (s : Text) → str_eq s s ≡ true
unfolding str_eq
str_eq_refl [] = refl
str_eq_refl (x ∷ s) = ground (arith, str_eq_refl s)

pub str_eq→eq : (s t : Text) → str_eq s t ≡ true → s ≡ t
unfolding str_eq
str_eq→eq [] [] h = refl
str_eq→eq [] (y ∷ t) h = cc
str_eq→eq (x ∷ s) [] h = cc
str_eq→eq (x ∷ s) (y ∷ t) h = ground (arith, str_eq→eq s t)

pub str_eq_iff : (s t : Text) → (str_eq s t ≡ true) ↔ (s ≡ t)
str_eq_iff s t = (str_eq→eq s t, λ e. cc (ap (str_eq s) e, str_eq_refl s))

-- unicode.IsSpace
unfoldable pub is_space : ℕ → Bool
is_space c =
    (leb 9 c && leb c 13)
    || c == 32
    || c == 0x85
    || c == 0xa0
    || c == 0x1680
    || (leb 0x2000 c && leb c 0x200a)
    || c == 0x2028
    || c == 0x2029
    || c == 0x202f
    || c == 0x205f
    || c == 0x3000

-- The width of a code point in UTF-8: `len` of a Go string counts these.
unfoldable pub utf8_width : ℕ → ℕ
utf8_width c = if ltb c 0x80 then 1 else if ltb c 0x800 then 2 else if ltb c 0x1_0000 then 3 else 4

unfoldable pub byte_length : Text → ℕ
unfolding utf8_width
byte_length [] = 0
byte_length (c ∷ s) = utf8_width c + byte_length s

unfoldable pub has_prefix : Text → Text → Bool
has_prefix [] s = true
has_prefix (c ∷ p) [] = false
has_prefix (c ∷ p) (d ∷ s) = (c == d) && has_prefix p s

unfoldable pub trim_left : Text → Text
unfolding is_space
trim_left [] = []
trim_left (c ∷ s) = if is_space c then trim_left s else c ∷ s

unfoldable pub trim_right : Text → Text
unfolding is_space
trim_right [] = []
trim_right (c ∷ s) = let rest = trim_right s in if is_space c && is_nil rest then [] else c ∷ rest

unfoldable pub trim_space : Text → Text
unfolding trim_left trim_right
trim_space s = trim_right (trim_left s)

-- One more character in front of the first piece.
abbrev pub cons_head : ℕ → List Text → List Text
cons_head c [] = (c ∷ []) ∷ []
cons_head c (p ∷ ps) = (c ∷ p) ∷ ps

unfoldable pub split_by : (ℕ → Bool) → Text → List Text
split_by sep [] = [] ∷ []
split_by sep (c ∷ s) = let rest = split_by sep s in if sep c then [] ∷ rest else cons_head c rest

unfoldable pub split : ℕ → Text → List Text
unfolding split_by
split c = split_by (λ d. d == c)

-- strings.SplitN for `n` at least 1: the last piece keeps its separators.
unfoldable pub split_n : ℕ → ℕ → Text → List Text
split_n c zero s = []
split_n c (suc zero) s = s ∷ []
split_n c (suc (suc n)) [] = [] ∷ []
split_n c (suc (suc n)) (d ∷ s) =
    let next = split_n c (suc n) s in
    let same = split_n c (suc (suc n)) s in if d == c then [] ∷ next else cons_head d same

unfoldable pub fields : Text → List Text
unfolding split_by is_space
fields s = keep (λ w. not (is_nil w)) (split_by is_space s)

unfoldable pub join : Text → List Text → Text
join sep [] = []
join sep (w ∷ []) = w
join sep (w ∷ v ∷ ws) = w ++ (sep ++ join sep (v ∷ ws))

unfoldable pub contains_any : Text → Text → Bool
contains_any s chars = any (λ c. any (λ d. c == d) chars) s

-- strings.ReplaceAll(s, base, "") for a non-empty `base`; `skip` characters of a match are left.
unfoldable pub remove_from : Text → ℕ → Text → Text
remove_from base skip [] = []
remove_from base (suc skip) (c ∷ s) = remove_from base skip s
remove_from base zero (c ∷ s) =
    let cut = remove_from base (length base - 1) s in
    let kept = c ∷ remove_from base 0 s in if has_prefix base (c ∷ s) then cut else kept

unfoldable pub remove_all : Text → Text → Text
unfolding remove_from has_prefix
remove_all base s = if is_nil base then s else remove_from base 0 s

-- The raw lines of a file: what follows the last newline is a line unless it is empty.
unfoldable pub drop_last_empty : List Text → List Text
drop_last_empty [] = []
drop_last_empty ([] ∷ []) = []
drop_last_empty (p ∷ ps) = p ∷ drop_last_empty ps

unfoldable pub drop_cr : Text → Text
drop_cr [] = []
drop_cr (c ∷ []) = if c == 13 then [] else c ∷ []
drop_cr (c ∷ d ∷ s) = c ∷ drop_cr (d ∷ s)

-- The tokens of a bufio.Scanner whose buffer holds `limit` bytes, and whether it stopped at a line
-- that does not fit (its `Err`).
unfoldable pub scan_raw : ℕ → List Text → List Text × Bool
unfolding drop_cr byte_length
scan_raw limit [] = ([], false)
scan_raw limit (l ∷ ls) =
    let (rest, failed) = scan_raw limit ls in
    if leb limit (byte_length l) then ([], true) else (drop_cr l ∷ rest, failed)

unfoldable pub scan_lines : ℕ → Text → List Text × Bool
unfolding scan_raw split drop_last_empty
scan_lines limit s = scan_raw limit (drop_last_empty (split 10 s))

-- bufio.MaxScanTokenSize
abbrev pub max_scan_token : ℕ
max_scan_token = 65536

-- A line starting with '#', or an empty one, is a comment in every file of the program.
unfoldable pub is_comment : Text → Bool
unfolding has_prefix
is_comment line = is_nil line || has_prefix (b'#' ∷ []) line

abbrev pub elem : Text → List Text → Bool
elem k [] = false
elem k (n ∷ ns) = str_eq n k || elem k ns
