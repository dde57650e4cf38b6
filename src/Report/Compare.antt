-- ===== src/Report/Compare.antt =====
-- logic.go and data_file.go: `buildCompareReport` and the two commands on top of it.
use ship_grip_fim.Base.{
  ℕ, Option, some, ◌++◌, Text, lit, if◌then◌else◌, length, unlines, Result, ok, err,
}
use ship_grip_fim.Compare.{CompareReport, diff}
use ship_grip_fim.Report.Store.{
  ReportConfig, ReportHeader, ReportError, no_data_source, Files, Outcome, report_stat, report_path,
  file_source, write_file,
}
use ship_grip_fim.Report.Load.{compare_reports_data}
use ship_grip_fim.Report.Render.{compare_lines, compare_string}

-- `compareStats` of agent_server.go, without its timestamp.
pub record CompareStats : Type 0 where
  pub old_report : Text
  pub new_report : Text
  pub changed : ℕ
  pub added : ℕ
  pub missing : ℕ
  pub moved : ℕ

unfoldable pub stats_of : Text → Text → CompareReport → CompareStats
stats_of old_id new_id cr = record {
  old_report = old_id;
  new_report = new_id;
  changed = length cr.changed_files;
  added = length cr.new_files;
  missing = length cr.missing_files;
  moved = length cr.moved_files;
}

pub record Compared : Type 0 where
  pub report : CompareReport
  pub old_header : ReportHeader
  pub new_header : ReportHeader

infixl 5 ◌>>=◌
abbrev ◌>>=◌ {ℓ κ} :
    {A : Type ℓ} {B : Type κ}
    → Result ReportError A
    → (A → Result ReportError B)
    → Result ReportError B
ok a >>= f = f a
err e >>= f = err e

unfoldable pub build_compare_report :
    ReportConfig → Text → Text → Files → Result ReportError Compared
build_compare_report c old_id new_id files = do
  oh ← report_stat c old_id files
  nh ← report_stat c new_id files
  loaded ← compare_reports_data c old_id new_id oh nh files
  ok (record { report = diff c.ignored loaded.0 loaded.1; old_header = oh; new_header = nh })

unfoldable pub compare_name : Text → Text → Text
compare_name old_id new_id = lit "compare__" ++ (old_id ++ (lit "__" ++ new_id))

unfoldable pub save_compare_file :
    ReportConfig → Text → Outcome → Text → Compared → Files → Result ReportError (Unit {0}) × Files
unfolding write_file
save_compare_file c time how name r files =
    write_file how (report_path c (name ++ (lit "__" ++ time)))
      (unlines (compare_lines r.old_header r.new_header r.report)) files

unfoldable pub save_compare :
    ReportConfig → Text → Outcome → Text → Compared → Files → Result ReportError (Unit {0}) × Files
unfolding save_compare_file file_source
save_compare c time how name r files =
    if file_source c then save_compare_file c time how name r files else (err no_data_source, files)

-- The state that a compare changes: the files and `state.lastCompare`.
pub record CompareState : Type 0 where
  pub files : Files
  pub last_compare : Option CompareStats

saved :
    ReportConfig
    → Text
    → Outcome
    → Text
    → Text
    → Result ReportError Compared
    → CompareState
    → Result ReportError Compared × CompareState
unfolding stats_of
saved c time how old_id new_id (err e) s = (err e, s)
saved c time how old_id new_id (ok r) s =
    let (w, files) = save_compare c time how (compare_name old_id new_id) r s.files in
    let s' : CompareState = record {
      files = files;
      last_compare = some (stats_of old_id new_id r.report);
    } in
    elim w [ ok _ ↦ (ok r, s') | err e ↦ (err e, s') ]

-- `compareReports`: the diff is built, its statistics recorded, and the compare report saved.
unfoldable pub compare_reports :
    ReportConfig
    → Text
    → Outcome
    → Text
    → Text
    → CompareState
    → Result ReportError Compared × CompareState
unfolding saved
compare_reports c time how old_id new_id s =
    saved c time how old_id new_id (build_compare_report c old_id new_id s.files) s

-- `compareReportsString`: an error is the text that starts with "ERROR - ".
unfoldable pub compare_reports_string :
    ReportConfig
    → Text
    → Outcome
    → Text
    → Text
    → CompareState
    → Result ReportError Text × CompareState
unfolding compare_reports
compare_reports_string c time how old_id new_id s =
    let (r, s') = compare_reports c time how old_id new_id s in
    elim r [
      | ok r ↦ (ok (compare_string r.old_header r.new_header r.report), s')
      | err e ↦ (err e, s')
    ]
