-- ===== src/Report/Render/Stats.antt =====
-- agent_metrics.go: the counts read from a compare report file are those of the diff.
use ship_grip_fim.Base.{
  suc, ◌+◌, ◌≡◌, refl, ◌∙◌, List, [], ◌∷◌, ◌++◌, map, arith, Text, lit, Map, has_prefix, All,
  IsLine, max_scan_token, unlines, scan_lines-unlines, some, length,
}
use ship_grip_fim.Report.Store.{ReportHeader, header_text}
use ship_grip_fim.Compare.{CompareReport, Change, Move}
use ship_grip_fim.Report.Render.{
  new_line, missing_line, changed_line, moved_line, diff_lines, compare_lines, DiffCounts,
  count_line, count_lines, no_counts, parse_compare_file_stats,
}

count_lines-append :
    (xs ys : List Text) (c : DiffCounts)
    → count_lines (xs ++ ys) c ≡ count_lines ys (count_lines xs c)
unfolding count_lines
count_lines-append [] ys c = refl
count_lines-append (x ∷ xs) ys c = count_lines-append xs ys (count_line x c)

count-new :
    (m : Map Text) (c : DiffCounts)
    → count_lines (map new_line m) c ≡ record c { added = length m + c.added }
unfolding count_lines count_line new_line has_prefix lit
count-new [] c = ground arith
count-new ((k, v) ∷ m) c = ground (arith, count-new m (record c { added = suc c.added }))

count-missing :
    (m : Map Text) (c : DiffCounts)
    → count_lines (map missing_line m) c ≡ record c { missing = length m + c.missing }
unfolding count_lines count_line missing_line has_prefix lit
count-missing [] c = ground arith
count-missing ((k, v) ∷ m) c =
    ground (arith, count-missing m (record c { missing = suc c.missing }))

count-changed :
    (cs : List Change) (c : DiffCounts)
    → count_lines (map changed_line cs) c ≡ record c { changed = length cs + c.changed }
unfolding count_lines count_line changed_line has_prefix lit
count-changed [] c = ground arith
count-changed (x ∷ cs) c = ground (arith, count-changed cs (record c { changed = suc c.changed }))

count-moved :
    (ms : List Move) (c : DiffCounts)
    → count_lines (map moved_line ms) c ≡ record c { moved = length ms + c.moved }
unfolding count_lines count_line moved_line has_prefix lit
count-moved [] c = ground arith
count-moved (x ∷ ms) c = ground (arith, count-moved ms (record c { moved = suc c.moved }))

count-headers :
    (oh nh : ReportHeader) (ls : List Text)
    → count_lines
        ((lit "Old Header: " ++ header_text oh) ∷ (lit "New Header: " ++ header_text nh) ∷ ls)
        no_counts
      ≡ count_lines ls no_counts
unfolding count_lines count_line has_prefix lit
count-headers oh nh ls = refl

count-diff :
    (cr : CompareReport)
    → count_lines (diff_lines cr) no_counts ≡ record {
      changed = length cr.changed_files;
      added = length cr.new_files;
      missing = length cr.missing_files;
      moved = length cr.moved_files;
    }
unfolding diff_lines
count-diff cr =
    simp (count_lines-append, count-new, count-missing, count-changed, count-moved) (ground arith)

-- The counts that a restarted agent reads from a compare report file, all of whose lines fit the
-- scanner and hold no newline, are the numbers of changed, new, missing and moved files.
pub stats_of_saved :
    (oh nh : ReportHeader) (cr : CompareReport)
    → All (IsLine max_scan_token) (compare_lines oh nh cr)
    → parse_compare_file_stats (some (unlines (compare_lines oh nh cr))) ≡ record {
      changed = length cr.changed_files;
      added = length cr.new_files;
      missing = length cr.missing_files;
      moved = length cr.moved_files;
    }
unfolding parse_compare_file_stats
stats_of_saved oh nh cr h =
    rw (scan_lines-unlines max_scan_token (compare_lines oh nh cr) h)
      (unfold compare_lines in (count-headers oh nh (diff_lines cr) ∙ count-diff cr))
