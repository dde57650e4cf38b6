-- ===== src/Report/Render.antt =====
-- data_file.go, logic.go and agent_metrics.go: compare reports as text, and the counts that are
-- read back from such a file.
pub mod Stats
use ship_grip_fim.Base.{
  ℕ, zero, suc, ◌+◌, Bool, true, false, List, [], ◌∷◌, ◌++◌, map, Text, lit, Map, has_prefix,
  if◌then◌else◌, scan_lines, max_scan_token, unlines, Option, none, some,
}
use ship_grip_fim.Report.Store.{ReportHeader, header_text}
use ship_grip_fim.Compare.{CompareReport, Change, Move}

unfoldable pub new_line : Text × Text → Text
new_line (k, v) = lit "NEW - " ++ (k ++ (lit " - " ++ v))

unfoldable pub missing_line : Text × Text → Text
missing_line (k, v) = lit "MISSING - " ++ (k ++ (lit " - " ++ v))

unfoldable pub changed_line : Change → Text
changed_line c =
    lit "CHANGED - " ++ (c.path ++ (lit " - " ++ (c.old_hash ++ (lit " ==> " ++ c.new_hash))))

unfoldable pub moved_line : Move → Text
moved_line m =
    lit "MOVED - " ++ (m.old_path ++ (lit " ==> " ++ (m.new_path ++ (lit " - " ++ m.hash))))

-- The four loops, each over its part of the report.
unfoldable pub diff_lines : CompareReport → List Text
diff_lines cr =
    map new_line cr.new_files
    ++ (map missing_line cr.missing_files
        ++ (map changed_line cr.changed_files ++ map moved_line cr.moved_files))

-- What `saveCompareFile` writes.
unfoldable pub compare_lines : ReportHeader → ReportHeader → CompareReport → List Text
unfolding diff_lines
compare_lines old_header new_header cr =
    (lit "Old Header: " ++ header_text old_header)
    ∷ (lit "New Header: " ++ header_text new_header)
    ∷ diff_lines cr

-- What `compareReportsString` returns.
unfoldable pub compare_string : ReportHeader → ReportHeader → CompareReport → Text
unfolding diff_lines
compare_string old_header new_header cr = unlines (
    (lit "Old: " ++ header_text old_header)
    ∷ (lit "New: " ++ header_text new_header)
    ∷ []
    ∷ diff_lines cr)

pub record DiffCounts : Type 0 where
  pub changed : ℕ
  pub added : ℕ
  pub missing : ℕ
  pub moved : ℕ

unfoldable pub count_line : Text → DiffCounts → DiffCounts
count_line l c =
    if has_prefix (lit "CHANGED - ") l
    then record c { changed = suc c.changed }
    else if has_prefix (lit "NEW - ") l
    then record c { added = suc c.added }
    else if has_prefix (lit "MISSING - ") l
    then record c { missing = suc c.missing }
    else if has_prefix (lit "MOVED - ") l
    then record c { moved = suc c.moved }
    else c

unfoldable pub count_lines : List Text → DiffCounts → DiffCounts
unfolding count_line
count_lines [] c = c
count_lines (l ∷ ls) c = count_lines ls (count_line l c)

abbrev pub no_counts : DiffCounts
no_counts = record { changed = 0; added = 0; missing = 0; moved = 0 }

-- A file that cannot be opened counts nothing; a line that is too long ends the count.
unfoldable pub parse_compare_file_stats : Option Text → DiffCounts
unfolding count_lines
parse_compare_file_stats none = no_counts
parse_compare_file_stats (some s) = count_lines (scan_lines max_scan_token s).0 no_counts
