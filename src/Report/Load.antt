-- ===== src/Report/Load.antt =====
-- data_file.go: reading scan reports back, and `removeBasePath`.
pub mod RoundTrip
use ship_grip_fim.Base.{
  ℕ, Bool, true, false, ◌&&◌, Option, none, some, List, [], ◌∷◌, drop, Text, if◌then◌else◌, is_nil,
  Map, lookup, insert, remove, keys, scan_lines, split_n, remove_all, Result, ok, err,
}
use ship_grip_fim.Report.Store.{
  ReportConfig, ReportHeader, ReportError, not_found, line_too_long, no_data_source, Files,
  report_path, file_source,
}

-- s.Buffer(…, 1024*1024)
abbrev pub long_line : ℕ
long_line = 1048576

-- A line without a comma is reported and skipped.
load_columns : List Text → Map Text → Map Text
load_columns (hash ∷ path ∷ []) dst = insert path hash dst
load_columns _ dst = dst

unfoldable pub load_entries : List Text → Map Text → Map Text
unfolding load_columns
load_entries [] dst = dst
load_entries (l ∷ ls) dst = load_entries ls (load_columns (split_n b',' 2 l) dst)

load_contents : Option Text → Map Text → Map Text × Option ReportError
load_contents none dst = (dst, some not_found)
load_contents (some s) dst =
    let (lines, long) = scan_lines long_line s in
    (load_entries (drop 1 lines) dst, if long then some line_too_long else none)

-- The map is filled as far as the file can be read.
unfoldable pub load_report_file : Text → Map Text → Files → Map Text × Option ReportError
unfolding load_contents
load_report_file path dst files = load_contents (lookup path files) dst

-- `v := m[k]`, the empty string for a missing key.
unfoldable pub hash_at : Text → Map Text → Text
hash_at k m = elim (lookup k m) [ none ↦ [] | some v ↦ v ]

unfoldable pub strip_keys : Text → List Text → Map Text → Map Text
unfolding hash_at
strip_keys base [] m = m
strip_keys base (k ∷ ks) m =
    strip_keys base ks (insert (remove_all base k) (hash_at k m) (remove k m))

unfoldable pub strip_base_path : Map Text → Text → Map Text
unfolding strip_keys
strip_base_path m base = strip_keys base (keys m) m

-- The two reports, or the error that stopped the loading.
stripped : ReportConfig → ReportHeader → ReportHeader → Map Text → Map Text → Map Text × Map Text
stripped c old_header new_header old new =
    if c.remove_base_path
    then (strip_base_path old old_header.path, strip_base_path new new_header.path)
    else (old, new)

load_second :
    ReportConfig
    → Text
    → ReportHeader
    → ReportHeader
    → Files
    → Map Text
    → Result ReportError (Map Text × Map Text)
unfolding stripped
load_second c new_id old_header new_header files old =
    let (new, e) = load_report_file (report_path c new_id) [] files in
    elim e [ some x ↦ err x | none ↦ ok (stripped c old_header new_header old new) ]

load_both :
    ReportConfig
    → Text
    → Text
    → ReportHeader
    → ReportHeader
    → Files
    → Result ReportError (Map Text × Map Text)
unfolding load_second
load_both c old_id new_id old_header new_header files =
    let (old, e) = load_report_file (report_path c old_id) [] files in
    elim e [ some x ↦ err x | none ↦ load_second c new_id old_header new_header files old ]

unfoldable pub compare_reports_data :
    ReportConfig
    → Text
    → Text
    → ReportHeader
    → ReportHeader
    → Files
    → Result ReportError (Map Text × Map Text)
unfolding load_both file_source
compare_reports_data c old_id new_id old_header new_header files =
    if file_source c
    then load_both c old_id new_id old_header new_header files
    else err no_data_source
