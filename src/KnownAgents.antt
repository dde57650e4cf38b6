-- ===== src/KnownAgents.antt =====
-- tlsutil.go and deploy.go: the known_agents file of pinned fingerprints. The TLS handshake is not
-- modelled: `verify_peer` is the callback that it makes with the certificates of the peer, of each
-- of which the fingerprint is given.
pub mod Words
pub mod Trust
pub mod Pin
use ship_grip_fim.Base.{
  ℕ, Bool, true, false, ◌&&◌, ◌||◌, not, Option, none, some, List, [], ◌∷◌, ◌++◌, Text, str_eq,
  if◌then◌else◌, has_prefix, fields, scan_lines, max_scan_token, split, trim_space, is_nil, join,
  Read, missing, failed, contents, Result, ok, err,
}

pub data Lookup : Type 0 where
  found : Text → Lookup
  absent unreadable : Lookup

-- The fingerprint, if the fields of a line are an entry for the address.
unfoldable pub entry_for : Text → List Text → Option Text
entry_for addr (a ∷ fp ∷ rest) =
    if not (has_prefix (b'#' ∷ []) a) && str_eq a addr then some fp else none
entry_for addr _ = none

unfoldable pub lookup_lines : Text → List Text → Option Text
unfolding entry_for
lookup_lines addr [] = none
lookup_lines addr (l ∷ ls) =
    let rest = lookup_lines addr ls in
    elim (entry_for addr (fields l)) [ some fp ↦ some fp | none ↦ rest ]

unfoldable pub lookup_text : Text → Text → Lookup
unfolding lookup_lines
lookup_text addr s =
    let (lines, long) = scan_lines max_scan_token s in
    elim (lookup_lines addr lines) [
      | some fp ↦ found fp
      | none ↦ if long then unreadable else absent
    ]

unfoldable pub lookup_known_agent : Read → Text → Lookup
unfolding lookup_text
lookup_known_agent missing addr = absent
lookup_known_agent failed addr = unreadable
lookup_known_agent (contents s) addr = lookup_text addr s

unfoldable pub known_line : Text → Text → Text
known_line addr fp = addr ++ (b' ' ∷ fp)

-- How an append goes: the file cannot be opened, the write breaks off after some text, or all is
-- written.
pub data Append : Type 0 where
  no_open all_written : Append
  broke : Text → Append

appended : Read → Text → Read
appended (contents s) t = contents (s ++ t)
appended missing t = contents t
appended failed t = failed

-- Whether it succeeded, and the file.
unfoldable pub remember_agent : Append → Read → Text → Text → Bool × Read
unfolding appended
remember_agent no_open file addr fp = (false, file)
remember_agent (broke part) file addr fp = (false, appended file part)
remember_agent all_written file addr fp = (true, appended file (known_line addr fp ++ (10 ∷ [])))

pub data Verdict : Type 0 where
  accepted pinned_now : Verdict
  no_certificate unreadable_file not_known cannot_save : Verdict
  changed : Text → Verdict

unfoldable pub is_accepted : Verdict → Bool
is_accepted accepted = true
is_accepted pinned_now = true
is_accepted _ = false

unfoldable pub first_use : Bool → Append → Read → Text → Text → Verdict × Read
first_use false how file addr fp = (not_known, file)
first_use true how file addr fp =
    let (saved, file') = remember_agent how file addr fp in
    (if saved then pinned_now else cannot_save, file')

unfoldable pub judge : Lookup → Bool → Append → Read → Text → Text → Verdict × Read
unfolding first_use
judge (found known) trust how file addr fp =
    (if not (str_eq known fp) then changed known else accepted, file)
judge unreadable trust how file addr fp = (unreadable_file, file)
judge absent trust how file addr fp = first_use trust how file addr fp

-- VerifyPeerCertificate of `dialAgent`.
unfoldable pub verify_peer : Bool → Append → Text → List Text → Read → Verdict × Read
unfolding judge
verify_peer trust how addr [] file = (no_certificate, file)
verify_peer trust how addr (fp ∷ chain) file =
    judge (lookup_known_agent file addr) trust how file addr fp

-- deploy.go: the line is an entry for the address, whatever follows it.
starts_with_addr : Text → List Text → Bool
starts_with_addr addr [] = false
starts_with_addr addr (a ∷ rest) = str_eq a addr

unfoldable pub kept_lines : Text → List Text → List Text
unfolding starts_with_addr
kept_lines addr [] = []
kept_lines addr (l ∷ ls) =
    let rest = kept_lines addr ls in
    if starts_with_addr addr (fields l) || is_nil (trim_space l) then rest else l ∷ rest

unfoldable pub pinned_text : Text → Text → List Text → Text
unfolding kept_lines known_line
pinned_text addr fp lines =
    join (10 ∷ []) (kept_lines addr lines ++ known_line addr fp ∷ []) ++ (10 ∷ [])

-- The write of the temporary file, or its rename, may fail: then the file stays.
unfoldable pub pin_known_agent : Bool → Text → Text → Read → Bool × Read
unfolding pinned_text
pin_known_agent fails addr fp failed = (false, failed)
pin_known_agent fails addr fp missing =
    if fails then (false, missing) else (true, contents (pinned_text addr fp []))
pin_known_agent fails addr fp (contents s) =
    if fails then (false, contents s) else (true, contents (pinned_text addr fp (split 10 s)))
