-- ===== src/Tests/Reports.antt =====
-- A report of one file, a compare report, and report names.
use ship_grip_fim.Base.{
  ◌≤◌, false, ℕ, ◌<◌, true, ◌≡◌, ◌⊎◌, refl, none, some, Option, List, [], ◌∷◌, Text, lit, arith,
  All, length, ok, err, Map, IsMap, lookup, byte_length, drop_cr, utf8_width, str_eq, contains_any,
}
use ship_grip_fim.Report.Store.{
  done, save_to_db_file, scan_header, header_text, entry_line, report_path, report_stat_file,
  valid_report_id,
}
use ship_grip_fim.Report.Load.{load_report_file}
use ship_grip_fim.Report.Load.RoundTrip.{IsHeader, IsEntry, saved_id, report_round_trip}
use ship_grip_fim.QuickCompare.{find_last_two_reports, too_few}
use ship_grip_fim.QuickCompare.Distinct.{AreDistinct}
use ship_grip_fim.QuickCompare.Newest.{IsReport, after_count, newest_two_found}
use ship_grip_fim.Tests.Agents.{home_reports}

abbrev one_file : Map Text
one_file = (lit "/p/a", lit "00") ∷ []

home-IsHeader : IsHeader (scan_header home_reports (lit "t"))
unfolding scan_header header_text lit byte_length utf8_width drop_cr
home-IsHeader = record {
  name_plain = refl;
  time_plain = refl;
  host_plain = refl;
  line = record { one_line = refl; no_cr = refl; fits = ground arith };
}

one_file-IsEntry : All IsEntry one_file
unfolding entry_line lit byte_length utf8_width drop_cr
one_file-IsEntry = ((refl, record { one_line = refl; no_cr = refl; fits = ground arith }), tt)

one_file-IsMap : IsMap one_file
unfolding lookup
one_file-IsMap = (refl, tt)

home_id : valid_report_id (saved_id home_reports (lit "t")) ≡ true
unfolding valid_report_id contains_any lit str_eq
home_id = refl

report_round_trip_example :
    let files = (save_to_db_file home_reports (lit "t") done one_file []).1 in
    let loaded =
      load_report_file (report_path home_reports (saved_id home_reports (lit "t"))) [] files in
    (report_stat_file home_reports (saved_id home_reports (lit "t")) files
      ≡ ok (scan_header home_reports (lit "t")))
    × (loaded.1 ≡ none)
    × (lookup (lit "/p/a") loaded.0 ≡ lookup (lit "/p/a") one_file)
report_round_trip_example =
    report_round_trip home_reports (lit "t") one_file [] (lit "/p/a") home-IsHeader one_file-IsEntry
      one_file-IsMap home_id

abbrev toy_times : Text → Text → Option ℕ
toy_times layout s = some (length s)

abbrev two_reports : List Text
two_reports = lit "n_1_1" ∷ lit "n_1_22" ∷ lit "compare__a" ∷ []

reports-AreDistinct : AreDistinct two_reports
unfolding lit str_eq
reports-AreDistinct = (refl, (refl, (refl, tt)))

newest_two_found_example :
    let count = after_count toy_times (lit "n") 0 two_reports in
    ((count < 2)
      × (find_last_two_reports toy_times (lit "n") (some two_reports) ≡ err (too_few count)))
    ⊎ ((2 ≤ count)
        × (o : Text) × (n : Text) × (s : ℕ) × (t : ℕ) × (find_last_two_reports toy_times
              (lit "n")
              (some two_reports)
            ≡ ok (o, n))
        × IsReport toy_times (lit "n") two_reports o s
        × IsReport toy_times (lit "n") two_reports n t
        × (str_eq o n ≡ false)
        × (s ≤ t)
        × (after_count toy_times (lit "n") t two_reports ≡ 0)
        × (after_count toy_times (lit "n") s two_reports ≤ 1))
newest_two_found_example = newest_two_found toy_times (lit "n") two_reports reports-AreDistinct
