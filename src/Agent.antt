-- ===== src/Agent.antt =====
-- agent_server.go: the agent's state, and what one command line does to it.
pub mod Command
pub mod Schedule
pub mod Response
pub mod Start
pub mod Steps
pub mod Exclusion
pub mod Permission
pub mod Protocol
use ship_grip_fim.Base.{
  ℕ, Bool, true, false, Option, none, some, List, [], ◌∷◌, Text, Result, ok, err,
}
use ship_grip_fim.Auth.File.{SaveStep, UsersDir}
use ship_grip_fim.Auth.Command.{Reply}
use ship_grip_fim.Report.Store.{ReportConfig, ReportError, Outcome}
use ship_grip_fim.Report.Compare.{CompareState, CompareStats}
use ship_grip_fim.QuickCompare.{QuickResult}
use ship_grip_fim.Scheduler.Jobs.{Cron, Scheduler, SchedJob, SchedError}
use ship_grip_fim.Scheduler.History.{Running, JobRun}

-- What a goroutine of the agent is busy with: a scan or a compare for the client of that number, or
-- a scheduled job with its name and start.
pub data Work : Type 0 where
  scanning : ℕ → Work
  comparing : ℕ → Text → Text → Work
  job_scan : Text → ℕ → Work

pub record AgentConfig : Type 0 where
  pub users_db : Text
  pub report : ReportConfig

-- `scanStats`, without its times.
pub record ScanStats : Type 0 where
  pub report_name : Text
  pub file_count : ℕ

-- The global `state` and `sched`, the files, and the goroutines.
pub record Agent (cron : Cron) : Type 0 where
  pub flags : Running
  pub users : UsersDir
  pub reports : CompareState
  pub last_scan : Option ScanStats
  pub sched : Option (Scheduler cron)
  pub history : List JobRun
  pub background : List Work

-- How the calls of the operating system that one command makes go, and what they read: failing
-- writes, the salt of a new hash, the entries of the report directory, and the time as text.
pub record Env : Type 0 where
  pub users_fail : SaveStep → Bool
  pub sched_fails : Bool
  pub salt : ℕ
  pub entries : Option (List (Text × Bool))
  pub time : Text
  pub compare_write : Outcome

-- What the agent writes on a connection; `done` is the line ---DONE---.
pub data Message : Type 0 where
  done : Message
  denied : Text → Text → Text → Message
  already_running scan_started compare_started scan_complete compare_complete : Message
  scan_failed scan_panicked compare_panicked : Message
  usage : Text → Message
  -- `none` if the report directory cannot be read
  report_list : Result ReportError (Option Text) → Message
  report_text compared : Result ReportError Text → Message
  quick_compared : QuickResult → Message
  scan_running compare_running idle : Message
  -- the parts of the answer to "metrics" that come from the state
  metrics : Running → Option ScanStats → Option CompareStats → Message
  user_reply : Reply → Message
  whoami : Text → Text → Message
  unknown_command unknown_schedule : Text → Message
  available_commands no_scheduler : Message
  jobs_overview : Running → List SchedJob → List JobRun → Message
  job_list : List SchedJob → Message
  job_history : List JobRun → Message
  job_scheduled : Text → Text → Text → Message
  job_removed : Text → Message
  schedule_error : SchedError → Message
