-- ===== src/Report/Store.antt =====
-- data.go and data_file.go: report ids, headers, and the writing of scan reports.
pub mod Ids
use ship_grip_fim.Base.{
  ℕ, Bool, true, false, ◌&&◌, ◌||◌, not, Option, none, some, List, [], ◌∷◌, ◌++◌, map, Text, lit,
  str_eq, if◌then◌else◌, is_nil, contains_any, Map, lookup, insert, unlines, Result, ok, err,
  scan_lines, max_scan_token, split_n, ◌==◌,
}

pub record ReportHeader : Type 0 where
  pub name : Text
  pub time : Text
  pub host : Text
  pub path : Text

-- The part of `configInfo` that the reports depend on.
pub record ReportConfig : Type 0 where
  pub report_dir : Text
  pub data_source : Text
  pub report_name : Text
  pub host : Text
  pub path : Text
  pub remove_base_path : Bool
  pub ignored : Text → Bool

pub data ReportError : Type 0 where
  no_data_source not_found line_too_long header_not_parsed cannot_create_dir cannot_open :
      ReportError
  write_failed : ReportError
  invalid_id : Text → ReportError

abbrev pub Files : Type 0
Files = Map Text

unfoldable pub valid_report_id : Text → Bool
valid_report_id id =
    if is_nil id || str_eq id (lit ".") || str_eq id (lit "..")
    then false
    else not (contains_any id (b'/' ∷ b'\\' ∷ 0 ∷ b' ' ∷ 9 ∷ 13 ∷ 10 ∷ []))

unfoldable pub file_source : ReportConfig → Bool
file_source c = str_eq c.data_source (lit "file")

unfoldable pub report_path : ReportConfig → Text → Text
report_path c id = c.report_dir ++ (b'/' ∷ id)

-- How `ensureReportDir` and `writeLines` go: a failed write leaves what was flushed before.
pub data Outcome : Type 0 where
  no_dir no_open done : Outcome
  broke : Text → Outcome

unfoldable pub write_file : Outcome → Text → Text → Files → Result ReportError (Unit {0}) × Files
write_file no_dir path s files = (err cannot_create_dir, files)
write_file no_open path s files = (err cannot_open, files)
write_file (broke part) path s files = (err write_failed, insert path part files)
write_file done path s files = (ok tt, insert path s files)

unfoldable pub header_text : ReportHeader → Text
header_text h = h.name ++ (b',' ∷ (h.time ++ (b',' ∷ (h.host ++ (b',' ∷ h.path)))))

unfoldable pub entry_line : Text × Text → Text
entry_line (path, hash) = hash ++ (b',' ∷ path)

unfoldable pub scan_header : ReportConfig → Text → ReportHeader
scan_header c time = record { name = c.report_name; time = time; host = c.host; path = c.path }

-- The lines of a scan report, in the order in which the map is ranged over.
unfoldable pub report_lines : ReportConfig → Text → Map Text → List Text
unfolding header_text entry_line scan_header
report_lines c time sums = header_text (scan_header c time) ∷ map entry_line sums

unfoldable pub save_to_db_file :
    ReportConfig → Text → Outcome → Map Text → Files → Result ReportError (Unit {0}) × Files
unfolding write_file
save_to_db_file c time how sums files =
    write_file how (report_path c (c.report_name ++ (b'_' ∷ time)))
      (unlines (report_lines c time sums)) files

unfoldable pub save_to_db :
    ReportConfig → Text → Outcome → Map Text → Files → Result ReportError (Unit {0}) × Files
unfolding save_to_db_file file_source
save_to_db c time how sums files =
    if file_source c then save_to_db_file c time how sums files else (err no_data_source, files)

-- The first line of a file: `Scan` once, the empty text if there is none.
unfoldable pub first_line : Text → Text × Bool
first_line s =
    let (lines, long) = scan_lines max_scan_token s in
    elim lines [ [] ↦ ([], long) | l ∷ ls ↦ (l, false) ]

unfoldable pub parse_header : List Text → Result ReportError ReportHeader
parse_header (n ∷ t ∷ h ∷ p ∷ []) = ok (record { name = n; time = t; host = h; path = p })
parse_header _ = err header_not_parsed

unfoldable pub read_header : Option Text → Result ReportError ReportHeader
unfolding parse_header
read_header none = err not_found
read_header (some s) =
    let (line, long) = first_line s in
    if long then err line_too_long else parse_header (split_n b',' 4 line)

unfoldable pub report_stat_file : ReportConfig → Text → Files → Result ReportError ReportHeader
unfolding read_header
report_stat_file c id files =
    if not (valid_report_id id)
    then err (invalid_id id)
    else read_header (lookup (report_path c id) files)

unfoldable pub report_stat : ReportConfig → Text → Files → Result ReportError ReportHeader
unfolding report_stat_file file_source
report_stat c id files = if file_source c then report_stat_file c id files else err no_data_source

-- os.ReadDir gives the names of a directory with whether each is a directory.
unfoldable pub list_names : List (Text × Bool) → List Text
list_names [] = []
list_names ((name, is_dir) ∷ es) = let rest = list_names es in if is_dir then rest else name ∷ rest

unfoldable pub list_reports_file : Option (List (Text × Bool)) → Option Text
unfolding list_names
list_reports_file none = none
list_reports_file (some entries) = some (unlines (list_names entries))

unfoldable pub list_reports :
    ReportConfig → Option (List (Text × Bool)) → Result ReportError (Option Text)
unfolding list_reports_file file_source
list_reports c entries =
    if file_source c then ok (list_reports_file entries) else err no_data_source

-- strings.HasSuffix(out, "\n")
unfoldable pub ends_in_newline : Text → Bool
ends_in_newline [] = false
ends_in_newline (c ∷ []) = c == 10
ends_in_newline (c ∷ d ∷ s) = ends_in_newline (d ∷ s)

unfoldable pub with_newline : Text → Text
unfolding ends_in_newline
with_newline s = if not (is_nil s) && not (ends_in_newline s) then s ++ (10 ∷ []) else s

contents_of : Option Text → Result ReportError Text
unfolding with_newline
contents_of none = err not_found
contents_of (some s) = ok (with_newline s)

-- The report as text, for the agent. The errors are texts that start with "ERROR".
unfoldable pub list_report_data_string : ReportConfig → Text → Files → Result ReportError Text
unfolding contents_of file_source
list_report_data_string c id files =
    if not (file_source c)
    then err no_data_source
    else if not (valid_report_id id)
    then err (invalid_id id)
    else contents_of (lookup (report_path c id) files)

print_lines : Option Text → List Text × Option ReportError
print_lines none = ([], some not_found)
print_lines (some s) =
    let (lines, long) = scan_lines max_scan_token s in
    (lines, if long then some line_too_long else none)

-- `listReportData` prints the lines: they are the first part of the result.
unfoldable pub list_report_data : ReportConfig → Text → Files → List Text × Option ReportError
unfolding print_lines file_source
list_report_data c id files =
    if not (file_source c)
    then ([], some no_data_source)
    else if not (valid_report_id id)
    then ([], some (invalid_id id))
    else print_lines (lookup (report_path c id) files)
