-- ===== src/KnownAgents/Words.antt =====
-- tlsutil.go: the line that is written for an address is read as an entry for it.
use ship_grip_fim.Base.{
  false, ◌≡◌, refl, none, some, List, [], ◌∷◌, ◌++◌, arith, Text, str_eq, any, any-append, ◌==◌,
  is_space, is_nil, fields, split_by-append, split_by_whole, has_prefix, if◌then◌else◌, byte_length,
  IsLine, max_scan_token, trim_right, drop_cr-trimmed, drop_cr-append, sym, append_assoc, unlines,
  ◌<◌,
}
use ship_grip_fim.KnownAgents.{entry_for, lookup_lines, known_line}

-- A word: not empty, without white space, and no comment.
pub record IsWord (w : Text) : Type 0 where
  pub one_word : any is_space w ≡ false
  pub given : is_nil w ≡ false
  pub plain : has_prefix (b'#' ∷ []) w ≡ false

fields-known_line :
    (addr fp : Text) → IsWord addr → IsWord fp → fields (known_line addr fp) ≡ addr ∷ fp ∷ []
unfolding fields known_line
fields-known_line addr fp a f =
    rw
      (
        split_by-append is_space addr b' ' fp a.one_word (unfold is_space in refl),
        split_by_whole is_space fp f.one_word,
      )
      (ground (arith, a.given, f.given))

pub entry-known_line :
    (addr fp other : Text)
    → IsWord addr
    → IsWord fp
    → entry_for other (fields (known_line addr fp)) ≡ (if str_eq addr other then some fp else none)
unfolding entry_for
entry-known_line addr fp other a f = rw (fields-known_line addr fp a f) (ground (arith, a.plain))

pub lookup_lines-append :
    (addr : Text) (xs ys : List Text)
    → lookup_lines addr (xs ++ ys)
      ≡ elim (lookup_lines addr xs) [ some fp ↦ some fp | none ↦ lookup_lines addr ys ]
unfolding lookup_lines
lookup_lines-append addr [] ys = refl
lookup_lines-append addr (x ∷ xs) ys = ground (arith, lookup_lines-append addr xs ys)

pub lookup-known_line :
    (addr fp other : Text)
    → IsWord addr
    → IsWord fp
    → lookup_lines other (known_line addr fp ∷ []) ≡ (if str_eq addr other then some fp else none)
unfolding lookup_lines
lookup-known_line addr fp other a f = ground (arith, entry-known_line addr fp other a f)

pub unlines-append : (xs ys : List Text) → unlines (xs ++ ys) ≡ unlines xs ++ unlines ys
unlines-append [] ys = refl
unlines-append (x ∷ xs) ys =
    rw (unlines-append xs ys) (sym (append_assoc x (10 ∷ unlines xs) (unlines ys)))

no_newline : (w : Text) → any is_space w ≡ false → any (λ d. d == 10) w ≡ false
unfolding is_space
no_newline [] h = refl
no_newline (c ∷ w) h = ground (arith, no_newline w)

no_space-trimmed : (w : Text) → any is_space w ≡ false → trim_right w ≡ w
unfolding trim_right
no_space-trimmed [] h = refl
no_space-trimmed (c ∷ w) h = ground (arith, no_space-trimmed w)

pub known_line-IsLine :
    (addr fp : Text)
    → IsWord addr
    → IsWord fp
    → byte_length (known_line addr fp) < max_scan_token
    → IsLine max_scan_token (known_line addr fp)
unfolding known_line
known_line-IsLine addr fp a f fits = record {
  one_line =
      rw
        (
          any-append (λ d. d == 10) addr (b' ' ∷ fp),
          no_newline addr a.one_word,
          no_newline fp f.one_word,
        )
        refl;
  no_cr =
      let end = drop_cr-trimmed fp (no_space-trimmed fp f.one_word) in
      drop_cr-append addr (b' ' ∷ fp) (drop_cr-append (b' ' ∷ []) fp end f.given) refl;
  fits = fits;
}
