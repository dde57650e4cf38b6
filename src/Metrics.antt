-- ===== src/Metrics.antt =====
-- agent_metrics.go: what the agent remembers of its last scan and compare, how that is read from the
-- report directory at its start, and the text of the "metrics" command. Times are seconds since Go's
-- zero time, which is 0; a duration is in milliseconds, to which %.3f rounds. `rfc3339` writes a
-- time in UTC.
pub mod Seed
use ship_grip_fim.Base.{
  ℕ, zero, suc, ◌+◌, ◌/◌, ◌%◌, Bool, true, false, not, ◌==◌, Option, none, some, List, [], ◌∷◌,
  ◌++◌, Text, lit, str_eq, if◌then◌else◌, ltb, has_prefix, length, decimal, unlines, scan_lines,
  max_scan_token, is_nil,
}
use ship_grip_fim.Report.Render.{DiffCounts, parse_compare_file_stats}
use ship_grip_fim.Report.Store.{list_names}
use ship_grip_fim.QuickCompare.{
  ParseTime, parse_report_timestamp, extract_report_name, most_recent_report_time,
}
use ship_grip_fim.Scheduler.History.{JobRun, RunStatus, running, complete, skipped, error}

-- `scanStats`
pub record ScanSeen : Type 0 where
  pub report_name : Text
  pub timestamp : ℕ
  pub file_count : ℕ
  pub duration : ℕ

-- `compareStats`, without the names of the reports, which the metrics do not read.
pub record CompareSeen : Type 0 where
  pub timestamp : ℕ
  pub counts : DiffCounts

unfoldable pub count_filled : List Text → ℕ
count_filled [] = 0
count_filled (l ∷ ls) = let rest = count_filled ls in if is_nil l then rest else suc rest

after_first : List Text → List Text
after_first [] = []
after_first (l ∷ ls) = ls

-- A file that cannot be opened has no lines.
unfoldable pub count_report_lines : Option Text → ℕ
unfolding count_filled after_first
count_report_lines none = 0
count_report_lines (some s) = count_filled (after_first (scan_lines max_scan_token s).0)

-- The latest scan report and the latest compare report seen so far, each with its time.
pub record Latest : Type 0 where
  pub scan_report : Text
  pub scan_time : ℕ
  pub compare_report : Text
  pub compare_time : ℕ

abbrev pub none_yet : Latest
none_yet = record { scan_report = []; scan_time = 0; compare_report = []; compare_time = 0 }

module _ (parse : ParseTime) where
  unfoldable pub latest_of : Text → Latest → Latest
  latest_of name l =
      let t = parse_report_timestamp parse name in
      if t == 0
      then l
      else if has_prefix (lit "compare__") name
      then (if ltb l.compare_time t
          then record l { compare_time = t; compare_report = name }
          else l)
      else (if ltb l.scan_time t then record l { scan_time = t; scan_report = name } else l)

  unfoldable pub latest_in : List Text → Latest → Latest
  unfolding latest_of
  latest_in [] l = l
  latest_in (n ∷ ns) l = latest_in ns (latest_of n l)

  -- `initAgentState`: `entries` are the names in the report directory, `none` if it cannot be read,
  -- and `open` gives the file of a name. What is not seeded stays as it was: nothing.
  unfoldable pub seeded : (Text → Option Text) → Latest → Option ScanSeen × Option CompareSeen
  seeded open_file l = (
    if is_nil l.scan_report
        then none
        else some (record {
          report_name = extract_report_name l.scan_report;
          timestamp = l.scan_time;
          file_count = count_report_lines (open_file l.scan_report);
          duration = 0;
        }),
    if is_nil l.compare_report
        then none
        else some (record {
          timestamp = l.compare_time;
          counts = parse_compare_file_stats (open_file l.compare_report);
        }),
  )

  unfoldable pub init_agent_state :
      Option (List Text) → (Text → Option Text) → Option ScanSeen × Option CompareSeen
  unfolding seeded latest_in
  init_agent_state none open_file = (none, none)
  init_agent_state (some names) open_file = seeded open_file (latest_in names none_yet)

unfoldable pub scan_names : List Text → List Text
scan_names [] = []
scan_names (n ∷ ns) =
    let rest = scan_names ns in if has_prefix (lit "compare__") n then rest else n ∷ rest

-- `listScanReportNames`, of the entries with whether each is a directory.
unfoldable pub list_scan_report_names : Option (List (Text × Bool)) → List Text
unfolding scan_names
list_scan_report_names none = []
list_scan_report_names (some entries) = scan_names (list_names entries)

-- A job with the time that `NextRunFor` gives.
pub record JobState : Type 0 where
  pub name : Text
  pub next : Text

-- What `agentMetricsString` reads; `jobs` is `none` without a scheduler.
pub record Snapshot : Type 0 where
  pub scan_running : Bool
  pub compare_running : Bool
  pub default_password : Bool
  pub scan_reports : List Text
  pub last_scan : Option ScanSeen
  pub last_compare : Option CompareSeen
  pub jobs : Option (List JobState)
  pub history : List JobRun

abbrev pub b2i : Bool → ℕ
b2i b = if b then 1 else 0

unfoldable pub seconds3 : ℕ → Text
seconds3 ms =
    decimal (ms / 1000)
    ++ (b'.' ∷ (b'0' + ms / 100 % 10) ∷ (b'0' + ms / 10 % 10) ∷ (b'0' + ms % 10) ∷ [])

unfoldable pub status_text : RunStatus → Text
status_text running = lit "running"
status_text complete = lit "complete"
status_text skipped = lit "skipped"
status_text (error e) = lit "error: " ++ e

abbrev pub still_running : RunStatus → Bool
still_running running = true
still_running _ = false

-- The newest run of a job that is not running; the history is in order.
unfoldable pub newest_run : Text → List JobRun → Option JobRun
newest_run name [] = none
newest_run name (r ∷ rs) =
    let later = newest_run name rs in
    elim later [
      | some r' ↦ some r'
      | none ↦
          if str_eq r.name name then (if still_running r.status then none else some r) else none
    ]

unfoldable pub newest_status : Option JobRun → Text
unfolding status_text
newest_status none = lit "never"
newest_status (some r) = status_text r.status

unfoldable pub job_key : Text → Text → Text
job_key name field = lit "job." ++ (name ++ (b'.' ∷ field))

unfoldable pub pair_lines : List (Text × Text) → List Text
pair_lines [] = []
pair_lines ((key, val) ∷ ps) = (key ++ (b'=' ∷ val)) ∷ pair_lines ps

module _ (rfc3339 : ℕ → Text) (parse : ParseTime) where
  -- A line is a key and a value.
  unfoldable pub scan_pairs : Option ScanSeen → List (Text × Text)
  scan_pairs none = []
  scan_pairs (some s) =
      (lit "last_scan_report", s.report_name)
      ∷ (lit "last_scan_time", rfc3339 s.timestamp)
      ∷ (lit "last_scan_files", decimal s.file_count)
      ∷ (lit "last_scan_duration", seconds3 s.duration)
      ∷ []

  unfoldable pub compare_pairs : Option CompareSeen → List (Text × Text)
  compare_pairs none = []
  compare_pairs (some c) =
      (lit "last_compare_time", rfc3339 c.timestamp)
      ∷ (lit "last_compare_changed", decimal c.counts.changed)
      ∷ (lit "last_compare_new", decimal c.counts.added)
      ∷ (lit "last_compare_missing", decimal c.counts.missing)
      ∷ (lit "last_compare_moved", decimal c.counts.moved)
      ∷ []

  unfoldable pub report_pairs : List Text → List (Text × Text)
  report_pairs names =
      let latest = most_recent_report_time parse 0 names in
      (lit "reports_total", decimal (length names))
      ∷ (if latest == 0 then [] else (lit "last_report_time", rfc3339 latest) ∷ [])

  unfoldable pub last_text : Option JobRun → Text
  last_text none = lit "never"
  last_text (some r) = rfc3339 r.start_time

  unfoldable pub job_pairs : List JobRun → List JobState → List (Text × Text)
  unfolding last_text newest_status job_key
  job_pairs history [] = []
  job_pairs history (j ∷ js) =
      (job_key j.name (lit "next"), j.next)
      ∷ (job_key j.name (lit "last"), last_text (newest_run j.name history))
      ∷ (job_key j.name (lit "status"), newest_status (newest_run j.name history))
      ∷ job_pairs history js

  unfoldable pub sched_pairs : List JobRun → Option (List JobState) → List (Text × Text)
  unfolding job_pairs
  sched_pairs history none = []
  sched_pairs history (some js) = (lit "jobs_total", decimal (length js)) ∷ job_pairs history js

  unfoldable pub metric_pairs : Snapshot → List (Text × Text)
  unfolding scan_pairs compare_pairs report_pairs sched_pairs
  metric_pairs s =
      (lit "scan_running", decimal (b2i s.scan_running))
      ∷ (lit "compare_running", decimal (b2i s.compare_running))
      ∷ (lit "default_password", decimal (b2i s.default_password))
      ∷ (report_pairs s.scan_reports
          ++ (scan_pairs s.last_scan
              ++ (compare_pairs s.last_compare ++ sched_pairs s.history s.jobs)))

  unfoldable pub agent_metrics_string : Snapshot → Text
  unfolding metric_pairs pair_lines
  agent_metrics_string s = unlines (pair_lines (metric_pairs s))
