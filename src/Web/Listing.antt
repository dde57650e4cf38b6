-- ===== src/Web/Listing.antt =====
-- web_gui.go, gui.go and sync.go: the three readers of a listing of reports.
use ship_grip_fim.Base.{
  ℕ, is_nil, str_eq, false, ◌≡◌, not, ◌&&◌, ◌||◌, [], ◌∷◌, Bool, Text, lit, any, is_space,
  has_prefix, ◌==◌,
}
use ship_grip_fim.Report.Store.{valid_report_id}

-- A name of a file without a space or an end of line.
abbrev IsSpaceless : Text → Type 0
IsSpaceless n = any is_space n ≡ false

abbrev is_synced : Text → Bool
is_synced n = valid_report_id n && not (has_prefix (lit "-") n)

abbrev starts_with : ℕ → Text → Bool
starts_with c [] = false
starts_with c (d ∷ s) = d == c

-- A character that an id may not have, or a space.
abbrev is_bad : ℕ → Bool
is_bad c = is_space c || c == b'/' || c == b'\\' || c == 0

-- A name of a file without these.
pub record IsPlainName (n : Text) : Type 0 where
  pub given : is_nil n ≡ false
  pub no_dot : str_eq n (lit ".") ≡ false
  pub no_dots : str_eq n (lit "..") ≡ false
  pub plain : any is_bad n ≡ false

-- What each reader is to keep, by how a name starts.
abbrev pub for_sync : Text → Bool
for_sync n = not (starts_with b'-' n)

abbrev pub for_desktop : Text → Bool
for_desktop n = not (starts_with b'-' n || starts_with b'=' n)

abbrev pub for_web : Text → Bool
for_web n = for_desktop n && not (has_prefix (lit "compare__") n)
