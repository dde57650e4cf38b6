-- ===== src/Tests/Trusts.antt =====
-- A known_agents file of one line.
use ship_grip_fim.Base.{
  All, true, false, ◌≡◌, refl, List, [], ◌∷◌, Text, lit, arith, All, IsLine, byte_length, drop_cr,
  utf8_width, max_scan_token, unlines, str_eq, contents, if◌then◌else◌, is_space, has_prefix,
  fields, split_by,
}
use ship_grip_fim.KnownAgents.{
  pinned_now, not_known, all_written, found, lookup_known_agent, verify_peer, is_accepted, no_open,
  known_line, pin_known_agent,
}
use ship_grip_fim.KnownAgents.Words.{IsWord}
use ship_grip_fim.KnownAgents.Trust.{is_for_other, trust_on_first_use}
use ship_grip_fim.KnownAgents.Pin.{pin_replaces}

abbrev one_line : List Text
one_line = lit "h:1 SHA256:a" ∷ []

one_line-IsLine : All (IsLine max_scan_token) one_line
unfolding lit byte_length utf8_width drop_cr
one_line-IsLine = (record { one_line = refl; no_cr = refl; fits = ground arith }, tt)

host-IsWord : IsWord (lit "h:2")
unfolding lit is_space has_prefix
host-IsWord = record { one_word = refl; given = refl; plain = refl }

print-IsWord : IsWord (lit "F")
unfolding lit is_space has_prefix
print-IsWord = record { one_word = refl; given = refl; plain = refl }

second-IsLine : IsLine max_scan_token (known_line (lit "h:2") (lit "F"))
unfolding known_line lit byte_length utf8_width drop_cr
second-IsLine = record { one_line = refl; no_cr = refl; fits = ground arith }

line_for_other : All (λ l. is_for_other (lit "h:2") l ≡ true) one_line
unfolding lit is_space fields split_by str_eq
line_for_other = (refl, tt)

other_host : str_eq (lit "h:2") (lit "h:1") ≡ false
unfolding lit str_eq
other_host = refl

trust_on_first_use_example :
    let file = contents (unlines one_line) in
    let (verdict, file') = verify_peer true all_written (lit "h:2") (lit "F" ∷ []) file in
    (verdict ≡ pinned_now)
    × (is_accepted (verify_peer true no_open (lit "h:2") (lit "G" ∷ []) file').0
        ≡ str_eq (lit "F") (lit "G"))
    × ((verify_peer true no_open (lit "h:2") (lit "G" ∷ []) file').1 ≡ file')
    × ((verify_peer true no_open (lit "h:1") [] file').0
        ≡ (verify_peer true no_open (lit "h:1") [] file).0)
    × (verify_peer false no_open (lit "h:2") (lit "F" ∷ []) file ≡ (not_known, file))
trust_on_first_use_example =
    trust_on_first_use (lit "h:2") (lit "F") (lit "G") (lit "h:1") [] [] one_line true no_open
      one_line-IsLine line_for_other host-IsWord print-IsWord second-IsLine other_host

pin_replaces_example :
    let file = contents (unlines one_line) in
    ((pin_known_agent false (lit "h:2") (lit "F") file).0 ≡ true)
    × (lookup_known_agent (pin_known_agent false (lit "h:2") (lit "F") file).1 (lit "h:1") ≡ (
        if str_eq (lit "h:2") (lit "h:1")
        then found (lit "F")
        else lookup_known_agent file (lit "h:1")))
    × (pin_known_agent true (lit "h:2") (lit "F") file ≡ (false, file))
pin_replaces_example =
    pin_replaces (lit "h:2") (lit "F") (lit "h:1") one_line one_line-IsLine host-IsWord print-IsWord
      second-IsLine
