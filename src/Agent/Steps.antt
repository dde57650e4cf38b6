-- ===== src/Agent/Steps.antt =====
-- agent_server.go and scheduler.go: the goroutines of the agent, from their start to their end, and
-- the steps of the whole agent.
use ship_grip_fim.Base.{
  ℕ, zero, suc, not, length, Bool, true, false, Option, none, some, List, [], ◌∷◌, ◌++◌, map, Text,
  if◌then◌else◌, Map, Result, ok, err,
}
use ship_grip_fim.Auth.Users.{Bcrypt}
use ship_grip_fim.Report.Store.{Files, Outcome, ReportError, save_to_db}
use ship_grip_fim.Report.Compare.{compare_reports_string}
use ship_grip_fim.QuickCompare.{ParseTime}
use ship_grip_fim.Scheduler.Jobs.{Cron}
use ship_grip_fim.Scheduler.History.{Running, JobRun, error, complete, begin_job, end_job}
use ship_grip_fim.Agent.{
  Work, scanning, comparing, job_scan, AgentConfig, Agent, Env, Message, done, scan_complete,
  compare_complete, scan_failed, scan_panicked, compare_panicked, compared,
}
use ship_grip_fim.Agent.Command.{Client, handle_line}

-- How a goroutine ends: whether it panics, whether the scanned path can be found, the checksums
-- that a scan finds in it, the time as text and as a number, and how its report is written.
pub record Ending : Type 0 where
  pub panics : Bool
  pub path_found : Bool
  pub sums : Map Text
  pub time : Text
  pub now : ℕ
  pub write : Outcome
  pub error_text : Text

scan_saved :
    {cron : Cron}
    → AgentConfig
    → ℕ
    → Result ReportError (Unit {0}) × Files
    → Agent cron
    → Bool × Agent cron
scan_saved c count (err e, files) a =
    (false, record a { reports = record a.reports { files = files } })
scan_saved c count (ok _, files) a = (
  true,
  record a {
    reports = record a.reports { files = files };
    last_scan = some (record { report_name = c.report.report_name; file_count = count });
  },
)

-- `callScan`: whether it succeeded.
unfoldable pub call_scan : {cron : Cron} → AgentConfig → Ending → Agent cron → Bool × Agent cron
unfolding scan_saved
call_scan c e a =
    if not e.path_found
    then (false, a)
    else scan_saved c (length e.sums) (save_to_db c.report e.time e.write e.sums a.reports.files) a

unfoldable pub take_work : ℕ → List Work → Option (Work × List Work)
take_work i [] = none
take_work zero (w ∷ ws) = some (w, ws)
take_work (suc i) (w ∷ ws) =
    let rest = take_work i ws in elim rest [ none ↦ none | some (v, vs) ↦ some (v, w ∷ vs) ]

unfoldable pub entered :
    {cron : Cron} → Text → ℕ → Bool × (Running × List JobRun) → Agent cron → Agent cron
entered name now (started, (flags, history)) a = record a {
  flags = flags;
  history = history;
  background = if started then job_scan name now ∷ a.background else a.background;
}

-- A job's time has come: the first half of `runJob`.
unfoldable pub job_starts : {cron : Cron} → Text → ℕ → Agent cron → Agent cron
unfolding entered
job_starts name now a = entered name now (begin_job name now (a.flags, a.history)) a

module _ (cron : Cron) (c : AgentConfig) where
  -- The deferred function resets the flag.
  unfoldable pub scan_ends : Ending → Agent cron → Message × Agent cron
  unfolding call_scan
  scan_ends e a =
      let (success, a') = call_scan c e a in
      let last = if e.panics then a else a' in
      (
        if e.panics then scan_panicked else if success then scan_complete else scan_failed,
        record last { flags = record a.flags { scan = false } },
      )

  unfoldable pub compare_ends : Text → Text → Ending → Agent cron → List Message × Agent cron
  compare_ends id1 id2 e a =
      let flags = record a.flags { compare = false } in
      if e.panics
      then (compare_panicked ∷ [], record a { flags = flags })
      else let (r, reports) = compare_reports_string c.report e.time e.write id1 id2 a.reports in
        (compared r ∷ compare_complete ∷ [], record a { flags = flags; reports = reports })

  -- The second half of `runJob`.
  unfoldable pub job_ends : Text → ℕ → Ending → Agent cron → Agent cron
  unfolding call_scan
  job_ends name start e a =
      let (success, a') = call_scan c e a in
      let last = if e.panics then a else a' in
      let status =
        if e.panics then error e.error_text else if success then complete else error e.error_text in
      let (flags, history) = end_job name start e.now status (a.flags, a.history) in
      record last { flags = flags; history = history }

  -- The messages with the number of the client that they go to.
  unfoldable pub work_ends : Work → Ending → Agent cron → List (ℕ × Message) × Agent cron
  unfolding scan_ends compare_ends job_ends
  work_ends (scanning n) e a = let (m, a') = scan_ends e a in ((n, m) ∷ (n, done) ∷ [], a')
  work_ends (comparing n id1 id2) e a =
      let (ms, a') = compare_ends id1 id2 e a in (map (λ m. (n, m)) ms ++ (n, done) ∷ [], a')
  work_ends (job_scan name start) e a = ([], job_ends name start e a)

-- What can happen to the agent: a client's line, a job's time, the end of a goroutine.
pub data Event : Type 0 where
  line : Env → Client → Text → Event
  timer : Text → ℕ → Event
  ends : ℕ → Ending → Event

module _ (bcrypt : Bcrypt) (cron : Cron) (parse : ParseTime) (c : AgentConfig) where
  unfoldable pub ended :
      Ending → Agent cron → Option (Work × List Work) → List (ℕ × Message) × Agent cron
  unfolding work_ends
  ended e a none = ([], a)
  ended e a (some (w, ws)) = work_ends cron c w e (record a { background = ws })

  unfoldable pub step : Event → Agent cron → List (ℕ × Message) × Agent cron
  unfolding ended take_work job_starts
  step (line env cl s) a =
      let (ms, a') = handle_line bcrypt cron parse c env cl a s in
      (map (λ m. (cl.number, m)) ms, a')
  step (timer name now) a = ([], job_starts name now a)
  step (ends i e) a = ended e a (take_work i a.background)

  unfoldable pub run : List Event → Agent cron → List (ℕ × Message) × Agent cron
  run [] a = ([], a)
  run (v ∷ vs) a = let (out, a') = step v a in let (more, a'') = run vs a' in (out ++ more, a'')
