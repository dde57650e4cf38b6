-- ===== src/Report/Load/RoundTrip.antt =====
-- data_file.go: `loadReportFile` and `reportStatFile` after `saveToDBFile`.
use ship_grip_fim.Base.{
  ℕ, Bool, true, false, ◌≡◌, refl, ap, none, some, List, [], ◌∷◌, ◌++◌, map, arith, Text,
  str_eq_iff, str_eq_refl, Map, lookup, insert, lookup-insert, if◌then◌else◌, All, IsLine, IsMap,
  max_scan_token, unlines, scan_lines-unlines, split_n, split_n-append, any, ◌==◌, is_some, ok,
  scan_lines, scan_raw, lines-unlines,
}
use ship_grip_fim.Report.Store.{
  ReportConfig, ReportHeader, done, header_text, entry_line, scan_header, report_lines, report_path,
  save_to_db_file, valid_report_id, report_stat_file, first_line, parse_header, read_header,
}
use ship_grip_fim.Report.Load.{long_line, load_entries, load_contents, load_report_file}

abbrev is_comma : ℕ → Bool
is_comma d = d == b','

-- A file whose line in the report reads back: no newline in the path or the hash, no comma in the
-- hash, and no carriage return at the end of the path.
abbrev pub IsEntry : Text × Text → Type 0
IsEntry (path, hash) = (any is_comma hash ≡ false) × IsLine long_line (entry_line (path, hash))

load-entry :
    (path hash : Text) (ls : List Text) (dst : Map Text)
    → any is_comma hash ≡ false
    → load_entries (entry_line (path, hash) ∷ ls) dst ≡ load_entries ls (insert path hash dst)
unfolding load_entries entry_line
load-entry path hash ls dst h = rw (split_n-append b',' 0 hash path h) (unfold split_n in refl)

lookup-load_entries :
    (sums : Map Text) (dst : Map Text) (k : Text)
    → All IsEntry sums
    → IsMap sums
    → lookup k (load_entries (map entry_line sums) dst)
      ≡ (if is_some (lookup k sums) then lookup k sums else lookup k dst)
unfolding lookup
lookup-load_entries [] dst k h m = unfold load_entries in refl
lookup-load_entries ((path, hash) ∷ sums) dst k h m =
    rw
      (
        load-entry path hash (map entry_line sums) dst h.0.0,
        lookup-load_entries sums (insert path hash dst) k h.1 m.1,
        lookup-insert path k hash dst,
      )
      (ground (arith, str_eq_iff path k, m.0))

entries-IsLine : (sums : Map Text) → All IsEntry sums → All (IsLine long_line) (map entry_line sums)
entries-IsLine [] h = tt
entries-IsLine ((path, hash) ∷ sums) h = (h.0.1, entries-IsLine sums h.1)

-- The parts of a header that can be read back: only the last may hold commas.
pub record IsHeader (h : ReportHeader) : Type 0 where
  pub name_plain : any is_comma h.name ≡ false
  pub time_plain : any is_comma h.time ≡ false
  pub host_plain : any is_comma h.host ≡ false
  pub line : IsLine max_scan_token (header_text h)

split-header :
    (h : ReportHeader) → IsHeader h → parse_header (split_n b',' 4 (header_text h)) ≡ ok h
unfolding header_text parse_header split_n
split-header h i =
    rw
      (
        split_n-append b',' 2 h.name (h.time ++ (b',' ∷ (h.host ++ (b',' ∷ h.path)))) i.name_plain,
        split_n-append b',' 1 h.time (h.host ++ (b',' ∷ h.path)) i.time_plain,
        split_n-append b',' 0 h.host h.path i.host_plain,
      )
      refl

first_scanned :
    (limit : ℕ) (l : Text) (ls : List Text)
    → IsLine limit l
    → (scan_raw limit (l ∷ ls)).0 ≡ l ∷ (scan_raw limit ls).0
unfolding scan_raw
first_scanned limit l ls i = ground (arith, i.no_cr, i.fits)

longer : {l : Text} → IsLine max_scan_token l → IsLine long_line l
longer i = record { one_line = i.one_line; no_cr = i.no_cr; fits = omega (arith, i.fits) }

first_line-unlines :
    (l : Text) (ls : List Text)
    → IsLine max_scan_token l
    → All (IsLine long_line) ls
    → first_line (unlines (l ∷ ls)) ≡ (l, false)
unfolding first_line scan_lines
first_line-unlines l ls i h =
    let lines = lines-unlines long_line (l ∷ ls) (longer i, h) in
    ground (arith, ap (scan_raw max_scan_token) lines, first_scanned max_scan_token l ls i)

abbrev pub saved_id : ReportConfig → Text → Text
saved_id c time = c.report_name ++ (b'_' ∷ time)

module _ (c : ReportConfig) (time : Text) (sums : Map Text) where
  stat_saved :
      IsHeader (scan_header c time)
      → All IsEntry sums
      → read_header (some (unlines (report_lines c time sums))) ≡ ok (scan_header c time)
  unfolding read_header report_lines
  stat_saved i h =
      rw
        (first_line-unlines (header_text (scan_header c time)) (map entry_line sums) i.line
          (entries-IsLine sums h))
        (split-header (scan_header c time) i)

  load_saved :
      IsHeader (scan_header c time)
      → All IsEntry sums
      → IsMap sums
      → (k : Text)
      → ((load_contents (some (unlines (report_lines c time sums))) []).1 ≡ none)
        × (lookup k (load_contents (some (unlines (report_lines c time sums))) []).0
            ≡ lookup k sums)
  unfolding load_contents report_lines lookup
  load_saved i h m k =
      let scanned =
        scan_lines-unlines long_line (header_text (scan_header c time) ∷ map entry_line sums)
          (longer i.line, entries-IsLine sums h) in
      (rw scanned, rw scanned (rw (lookup-load_entries sums [] k h m) (ground arith)))

-- A scan report that was written completely under a valid id is read back as it was saved, if name,
-- time and host have no comma and the header and every entry are lines that the scanner returns whole
-- (no newline, no carriage return at the end, shorter than its buffer), no hash has a comma and no path
-- was hashed twice: its header, no error, and for any path the hash that the scan had, or none if the
-- scan had none.
pub report_round_trip :
    (c : ReportConfig) (time : Text) (sums files : Map Text) (k : Text)
    → IsHeader (scan_header c time)
    → All IsEntry sums
    → IsMap sums
    → valid_report_id (saved_id c time) ≡ true
    → let files' = (save_to_db_file c time done sums files).1 in
      let loaded = load_report_file (report_path c (saved_id c time)) [] files' in
      (report_stat_file c (saved_id c time) files' ≡ ok (scan_header c time))
      × (loaded.1 ≡ none)
      × (lookup k loaded.0 ≡ lookup k sums)
unfolding save_to_db_file report_stat_file load_report_file
report_round_trip c time sums files k i h m v =
    let path = report_path c (saved_id c time) in
    let written : lookup path (insert path (unlines (report_lines c time sums)) files)
        ≡ some (unlines (report_lines c time sums)) =
      rw (lookup-insert, str_eq_refl) in
    let (fine, same) = load_saved c time sums i h m k in
    (rw (written, v) (stat_saved c time sums i h), rw written fine, rw written same)
