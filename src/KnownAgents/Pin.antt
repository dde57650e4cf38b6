-- ===== src/KnownAgents/Pin.antt =====
-- deploy.go: pinning replaces the entries of one address and keeps all others.
use ship_grip_fim.Base.{
  ℕ, true, false, ◌≡◌, refl, sym, ap, ◌∙◌, inl, inr, none, List, [], ◌∷◌, ◌++◌, arith, Text, str_eq,
  str_eq_iff, if◌then◌else◌, IsLine, max_scan_token, unlines, All, All-append, contents, fields,
  trim_space, is_nil, join, split, lines-unlines, drop_last_empty, append_assoc, ◌||◌, Bool-cases,
  is_space, trim_right, trim_left,
}
use ship_grip_fim.KnownAgents.{
  found, entry_for, lookup_lines, lookup_known_agent, known_line, kept_lines, pinned_text,
  pin_known_agent, starts_with_addr,
}
use ship_grip_fim.KnownAgents.Words.{IsWord, lookup_lines-append, lookup-known_line}
use ship_grip_fim.KnownAgents.Trust.{lookup_unlines}

join_lines :
    (ls : List Text) (l : Text)
    → join (10 ∷ []) (ls ++ l ∷ []) ++ (10 ∷ []) ≡ unlines (ls ++ l ∷ [])
unfolding join
join_lines [] l = refl
join_lines (x ∷ []) l = append_assoc x (10 ∷ l) (10 ∷ [])
join_lines (x ∷ y ∷ ls) l =
    append_assoc x (10 ∷ join (10 ∷ []) (y ∷ (ls ++ l ∷ []))) (10 ∷ [])
    ∙ ap (λ r. x ++ (10 ∷ r)) (join_lines (y ∷ ls) l)

kept_lines-All :
    (addr : Text) (ls : List Text)
    → All (IsLine max_scan_token) ls
    → All (IsLine max_scan_token) (kept_lines addr ls)
unfolding kept_lines
kept_lines-All addr [] h = tt
kept_lines-All addr (l ∷ ls) h =
    elim (Bool-cases (starts_with_addr addr (fields l) || is_nil (trim_space l))) [
      | inl e ↦ rw e (kept_lines-All addr ls h.1)
      | inr e ↦ rw e (h.0, kept_lines-All addr ls h.1)
    ]

trim_right_keeps : (c : ℕ) (s : Text) → is_space c ≡ false → is_nil (trim_right (c ∷ s)) ≡ false
unfolding trim_right
trim_right_keeps c s h = rw h refl

blank_left : (s : Text) → is_nil (trim_space s) ≡ true → is_nil (trim_left s) ≡ true
unfolding trim_space trim_left
blank_left [] h = refl
blank_left (c ∷ s) h = elim (Bool-cases (is_space c)) [
  | inl e ↦ ground (arith, blank_left s)
  | inr e ↦ absurd (ground (arith, trim_right_keeps c s e))
]

blank_fields : (s : Text) → is_nil (trim_left s) ≡ true → fields s ≡ []
unfolding trim_left fields
blank_fields [] h = refl
blank_fields (c ∷ s) h = ground (arith, blank_fields s)

entry_dropped :
    (addr other : Text) (fs : List Text)
    → starts_with_addr addr fs ≡ true
    → str_eq addr other ≡ false
    → entry_for other fs ≡ none
unfolding starts_with_addr entry_for
entry_dropped addr other [] h n = refl
entry_dropped addr other (a ∷ []) h n = refl
entry_dropped addr other (a ∷ fp ∷ rest) h n =
    ground (arith, str_eq_iff a addr, str_eq_iff a other, str_eq_iff addr other)

entry_other :
    (addr : Text) (fs : List Text) → starts_with_addr addr fs ≡ false → entry_for addr fs ≡ none
unfolding starts_with_addr entry_for
entry_other addr [] h = refl
entry_other addr (a ∷ []) h = refl
entry_other addr (a ∷ fp ∷ rest) h = ground arith

entry_blank :
    (addr : Text) (l : Text) → is_nil (trim_space l) ≡ true → entry_for addr (fields l) ≡ none
entry_blank addr l h = rw (blank_fields l (blank_left l h)) (unfold entry_for in refl)

lookup-kept_lines :
    (addr other : Text) (ls : List Text)
    → lookup_lines other (kept_lines addr ls)
      ≡ (if str_eq addr other then none else lookup_lines other ls)
unfolding lookup_lines kept_lines
lookup-kept_lines addr other [] = ground arith
lookup-kept_lines addr other (l ∷ ls) = ground (
  arith,
  lookup-kept_lines addr other ls,
  entry_dropped addr other (fields l),
  entry_other addr (fields l),
  entry_blank other l,
  str_eq_iff addr other,
)

kept_lines_blank :
    (addr : Text) (xs : List Text) → kept_lines addr (drop_last_empty xs) ≡ kept_lines addr xs
unfolding kept_lines drop_last_empty fields trim_space trim_left trim_right
kept_lines_blank addr [] = refl
kept_lines_blank addr ([] ∷ []) = ground arith
kept_lines_blank addr ([] ∷ y ∷ xs) = ground (arith, kept_lines_blank addr (y ∷ xs))
kept_lines_blank addr ((c ∷ x) ∷ xs) = ground (arith, kept_lines_blank addr xs)

pinned-unlines :
    (addr fp : Text) (ls : List Text)
    → All (IsLine max_scan_token) ls
    → pinned_text addr fp (split 10 (unlines ls))
      ≡ unlines (kept_lines addr ls ++ known_line addr fp ∷ [])
unfolding pinned_text
pinned-unlines addr fp ls h =
    let same =
      sym (kept_lines_blank addr (split 10 (unlines ls)))
      ∙ ap (kept_lines addr) (lines-unlines max_scan_token ls h) in
    rw same (join_lines (kept_lines addr ls) (known_line addr fp))

-- Pinning an address, in a known_agents file of well-formed lines, gives it exactly the new
-- fingerprint, whatever entries it had, and leaves every other address the one that it had, or
-- none; if the write fails, the file is as it was.
pub pin_replaces :
    (addr fp other : Text) (ls : List Text)
    → All (IsLine max_scan_token) ls
    → IsWord addr
    → IsWord fp
    → IsLine max_scan_token (known_line addr fp)
    → let file = contents (unlines ls) in
      ((pin_known_agent false addr fp file).0 ≡ true)
      × (lookup_known_agent (pin_known_agent false addr fp file).1 other
          ≡ (if str_eq addr other then found fp else lookup_known_agent file other))
      × (pin_known_agent true addr fp file ≡ (false, file))
unfolding pin_known_agent
pin_replaces addr fp other ls h a f line =
    let all_lines =
      All-append (IsLine max_scan_token) (kept_lines addr ls) (known_line addr fp ∷ [])
        (kept_lines-All addr ls h) (line, tt) in
    (
      refl,
      rw
          (
            pinned-unlines addr fp ls h,
            lookup_unlines other (kept_lines addr ls ++ known_line addr fp ∷ []) all_lines,
            lookup_unlines other ls h,
          )
          (ground (
            arith,
            lookup_lines-append other (kept_lines addr ls) (known_line addr fp ∷ []),
            lookup-kept_lines addr other ls,
            lookup-known_line addr fp other a f,
          )),
      refl,
    )
