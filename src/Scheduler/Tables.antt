-- ===== src/Scheduler/Tables.antt =====
-- scheduler.go: the tables of jobs and runs, and the next run of a job. The time of an entry's next run
-- in the engine and the format of times are parameters; a zero time is `none`.
pub mod Next
use ship_grip_fim.Base.{
  ℕ, Bool, true, false, ◌&&◌, not, Option, none, some, List, [], ◌∷◌, ◌++◌, map, Text, lit, str_eq,
  if◌then◌else◌, is_nil, unlines,
}
use ship_grip_fim.Hosts.Tables.{repeat, columns}
use ship_grip_fim.Metrics.{status_text}
use ship_grip_fim.Scheduler.Jobs.{SchedJob}
use ship_grip_fim.Scheduler.History.{JobRun, Running, RunStatus, running, complete, skipped, error}

unfoldable pub is_running_text : RunStatus → Bool
unfolding status_text
is_running_text s = str_eq (status_text s) (lit "running")

unfoldable pub newest_first : List JobRun → List JobRun
newest_first [] = []
newest_first (r ∷ rs) = newest_first rs ++ r ∷ []

module _ (next_run : ℕ → Option ℕ) (format : ℕ → Text) where
  unfoldable pub time_or_dash : Option ℕ → Text
  time_or_dash none = lit "-"
  time_or_dash (some t) = format t

  unfoldable pub job_row : SchedJob → Text
  unfolding time_or_dash
  job_row j =
      columns ((20, j.name) ∷ (22, j.schedule) ∷ (8, j.command) ∷ [])
        (time_or_dash (next_run j.entry_id))

  unfoldable pub list_jobs : List SchedJob → Text
  unfolding job_row
  list_jobs [] = unlines (lit "No jobs scheduled" ∷ [])
  list_jobs (j ∷ js) = unlines (
      columns ((20, lit "NAME") ∷ (22, lit "SCHEDULE") ∷ (8, lit "COMMAND") ∷ []) (lit "NEXT_RUN")
      ∷ repeat 80 b'-'
      ∷ map job_row (j ∷ js))

  unfoldable pub run_row : JobRun → Text
  unfolding time_or_dash is_running_text
  run_row r =
      let end = if not (is_running_text r.status) then time_or_dash r.end_time else lit "-" in
      columns ((20, r.name) ∷ (20, format r.start_time) ∷ (20, end) ∷ []) (status_text r.status)

  unfoldable pub list_history : List JobRun → Text
  unfolding run_row newest_first
  list_history [] = unlines (lit "No job history" ∷ [])
  list_history (r ∷ rs) = unlines (
      columns ((20, lit "NAME") ∷ (20, lit "START") ∷ (20, lit "END") ∷ []) (lit "STATUS")
      ∷ repeat 85 b'-'
      ∷ map run_row (newest_first (r ∷ rs)))

  running_text : Running → Text
  running_text flags =
      if flags.scan
      then lit "scan running"
      else if flags.compare
      then lit "compare running"
      else lit "idle"

  unfoldable pub jobs_overview_text : Running → List SchedJob → List JobRun → Text
  unfolding list_jobs list_history running_text
  jobs_overview_text flags jobs history =
      unlines (lit "=== Running ===" ∷ running_text flags ∷ [] ∷ lit "=== Scheduled Jobs ===" ∷ [])
      ++ (list_jobs jobs
          ++ (unlines ([] ∷ lit "=== Recent History ===" ∷ []) ++ list_history history))

  unfoldable pub next_run_for : Text → List SchedJob → Text
  unfolding time_or_dash
  next_run_for name [] = lit "-"
  next_run_for name (j ∷ js) =
      let rest = next_run_for name js in
      if str_eq j.name name then time_or_dash (next_run j.entry_id) else rest
