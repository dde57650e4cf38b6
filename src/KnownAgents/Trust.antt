-- ===== src/KnownAgents/Trust.antt =====
-- tlsutil.go: trust on first use.
use ship_grip_fim.Base.{
  ap, ◌∙◌, not, str_eq_refl, fields, Bool, true, false, ◌≡◌, refl, none, some, List, [], ◌∷◌, ◌++◌,
  arith, Text, str_eq, str_eq_iff, if◌then◌else◌, IsLine, max_scan_token, unlines, All, All-append,
  scan_lines-unlines, contents, Read,
}
use ship_grip_fim.KnownAgents.{
  Lookup, found, absent, unreadable, no_open, broke, entry_for, lookup_lines, lookup_known_agent,
  known_line, all_written, remember_agent, Append, pinned_now, not_known, first_use, judge,
  is_accepted, verify_peer,
}
use ship_grip_fim.KnownAgents.Words.{IsWord, lookup_lines-append, lookup-known_line, unlines-append}

-- A pinned address.
pinned_decides :
    (trust : Bool) (how : Append) (addr fp known : Text) (chain : List Text) (file : Read)
    → lookup_known_agent file addr ≡ found known
    → (is_accepted (verify_peer trust how addr (fp ∷ chain) file).0 ≡ str_eq known fp)
      × ((verify_peer trust how addr (fp ∷ chain) file).1 ≡ file)
unfolding verify_peer is_accepted
pinned_decides trust how addr fp known chain file h = ground (arith, h)

pub lookup_unlines :
    (addr : Text) (ls : List Text)
    → All (IsLine max_scan_token) ls
    → lookup_known_agent (contents (unlines ls)) addr
      ≡ elim (lookup_lines addr ls) [ some fp ↦ found fp | none ↦ absent ]
unfolding lookup_known_agent
lookup_unlines addr ls h = ground (arith, scan_lines-unlines max_scan_token ls h)

remembered :
    (ls : List Text) (addr fp : Text)
    → (remember_agent all_written (contents (unlines ls)) addr fp)
      ≡ (true, contents (unlines (ls ++ known_line addr fp ∷ [])))
unfolding remember_agent
remembered ls addr fp = rw (unlines-append ls (known_line addr fp ∷ [])) refl

-- The first connection to an address.
first_use_pins :
    (addr fp other : Text) (chain : List Text) (ls : List Text) (how : Append)
    → All (IsLine max_scan_token) ls
    → lookup_lines addr ls ≡ none
    → IsWord addr
    → IsWord fp
    → IsLine max_scan_token (known_line addr fp)
    → let file = contents (unlines ls) in
      let (verdict, file') = verify_peer true all_written addr (fp ∷ chain) file in
      (verdict ≡ pinned_now)
      × (lookup_known_agent file' other
          ≡ (if str_eq addr other then found fp else lookup_known_agent file other))
      × (verify_peer false how addr (fp ∷ chain) file ≡ (not_known, file))
unfolding verify_peer judge first_use
first_use_pins addr fp other chain ls how h new a f line =
    let none_yet = lookup_unlines addr ls h in
    let saved = remembered ls addr fp in
    let after =
      lookup_unlines other (ls ++ known_line addr fp ∷ [])
        (All-append (IsLine max_scan_token) ls (known_line addr fp ∷ []) h (line, tt)) in
    let before = lookup_unlines other ls h in
    (
      ground (arith, none_yet, new, saved),
      ground (
        arith,
        none_yet,
        new,
        saved,
        after,
        before,
        lookup_lines-append other ls (known_line addr fp ∷ []),
        lookup-known_line addr fp other a f,
        str_eq_iff addr other,
      ),
      ground (arith, none_yet, new),
    )

-- The first word of the line, if it has one, is not the address.
abbrev pub is_for_other : Text → Text → Bool
is_for_other addr l = elim (fields l) [ [] ↦ true | a ∷ rest ↦ not (str_eq a addr) ]

entry_for_other :
    (addr : Text) (ws : List Text)
    → (elim ws [ [] ↦ true | a ∷ rest ↦ not (str_eq a addr) ]) ≡ true
    → entry_for addr ws ≡ none
unfolding entry_for
entry_for_other addr [] h = refl
entry_for_other addr (a ∷ []) h = refl
entry_for_other addr (a ∷ fp ∷ rest) h = ground arith

not_found :
    (addr : Text) (ls : List Text)
    → All (λ l. is_for_other addr l ≡ true) ls
    → lookup_lines addr ls ≡ none
unfolding lookup_lines
not_found addr [] h = refl
not_found addr (l ∷ ls) h =
    ground (arith, entry_for_other addr (fields l) h.0, not_found addr ls h.1)

-- The verdict on an address depends on the file by what is found there only.
same_judgement :
    (l : Lookup) (trust : Bool) (how : Append) (file file' : Read) (addr fp : Text)
    → (judge l trust how file addr fp).0 ≡ (judge l trust how file' addr fp).0
unfolding judge first_use remember_agent
same_judgement (found known) trust how file file' addr fp = refl
same_judgement unreadable trust how file file' addr fp = refl
same_judgement absent false how file file' addr fp = refl
same_judgement absent true no_open file file' addr fp = refl
same_judgement absent true all_written file file' addr fp = refl
same_judgement absent true (broke part) file file' addr fp = refl

same_verdict :
    (trust : Bool) (how : Append) (addr : Text) (chain : List Text) (file file' : Read)
    → lookup_known_agent file' addr ≡ lookup_known_agent file addr
    → (verify_peer trust how addr chain file').0 ≡ (verify_peer trust how addr chain file).0
unfolding verify_peer
same_verdict trust how addr [] file file' h = refl
same_verdict trust how addr (fp ∷ chain) file file' h =
    ap (λ l. (judge l trust how file' addr fp).0) h
    ∙ same_judgement (lookup_known_agent file addr) trust how file' file addr fp

-- In a known_agents file of well-formed lines, none of which is for the address, the first connection
-- to the address pins a trusted agent, if the line can be written and the address and the fingerprint
-- are words. From then on the address is accepted exactly with this fingerprint, whether or not new
-- agents are trusted, and the file stays as it is; and what is decided on any other address is what
-- was decided before. An agent that is not trusted is refused, and nothing is written.
pub trust_on_first_use :
    (addr fp fp' other : Text) (chain chain' : List Text) (ls : List Text) (trust : Bool)
    (how : Append)
    → All (IsLine max_scan_token) ls
    → All (λ l. is_for_other addr l ≡ true) ls
    → IsWord addr
    → IsWord fp
    → IsLine max_scan_token (known_line addr fp)
    → str_eq addr other ≡ false
    → let file = contents (unlines ls) in
      let (verdict, file') = verify_peer true all_written addr (fp ∷ chain) file in
      (verdict ≡ pinned_now)
      × (is_accepted (verify_peer trust how addr (fp' ∷ chain') file').0 ≡ str_eq fp fp')
      × ((verify_peer trust how addr (fp' ∷ chain') file').1 ≡ file')
      × ((verify_peer trust how other chain' file').0 ≡ (verify_peer trust how other chain' file).0)
      × (verify_peer false how addr (fp ∷ chain) file ≡ (not_known, file))
trust_on_first_use addr fp fp' other chain chain' ls trust how h o a f line d =
    let file = contents (unlines ls) in
    let file' = (verify_peer true all_written addr (fp ∷ chain) file).1 in
    let none_yet = not_found addr ls o in
    let mine = first_use_pins addr fp addr chain ls how h none_yet a f line in
    let others = first_use_pins addr fp other chain ls how h none_yet a f line in
    let known = mine.1 ∙ rw (str_eq_refl addr) refl in
    let later = pinned_decides trust how addr fp' fp chain' file' known in
    (
      mine.0,
      later.0,
      later.1,
      same_verdict trust how other chain' file file' (others.1 ∙ rw d refl),
      mine.2,
    )
