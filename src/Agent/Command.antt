-- ===== src/Agent/Command.antt =====
-- agent_server.go: `handleConnection`, one line at a time, and the ends of the goroutines.
use ship_grip_fim.Base.{
  ℕ, Bool, true, not, Option, none, some, List, [], ◌∷◌, map, Text, lit, str_eq, if◌then◌else◌,
  fields, split_n, trim_space,
}
use ship_grip_fim.Auth.Roles.{command_role, role_allows}
use ship_grip_fim.Auth.Users.{Bcrypt}
use ship_grip_fim.Auth.Command.{user_command_as, authenticate}
use ship_grip_fim.Report.Store.{list_reports, list_report_data_string}
use ship_grip_fim.QuickCompare.{ParseTime, quick_compare_string}
use ship_grip_fim.Scheduler.Jobs.{Cron}
use ship_grip_fim.Scheduler.History.{Running, is_busy}
use ship_grip_fim.Agent.{
  scanning, comparing, AgentConfig, Agent, Env, Message, done, denied, already_running,
  scan_started, compare_started, usage, report_list, report_text, quick_compared, scan_running,
  compare_running, idle, metrics, user_reply, whoami, unknown_command, available_commands,
  no_scheduler, jobs_overview,
}
use ship_grip_fim.Agent.Schedule.{handle_schedule_cmd}

-- A client whose first line was accepted: its number, user, and role from then on.
pub record Client : Type 0 where
  pub number : ℕ
  pub user : Text
  pub role : Text

pub data Login : Type 0 where
  auth_required auth_failed : Login
  authenticated : Text → Text → Login

first_parts : (Text → Text → Option Text) → List Text → Login
first_parts check (word ∷ user ∷ password ∷ []) =
    if not (str_eq word (lit "auth"))
    then auth_required
    else elim (check user password) [ none ↦ auth_failed | some role ↦ authenticated user role ]
first_parts check _ = auth_required

-- The first line of a connection.
unfoldable pub login_line : {cron : Cron} → Bcrypt → AgentConfig → Agent cron → Text → Login
unfolding first_parts
login_line bcrypt c a line =
    first_parts (authenticate bcrypt c.users_db a.users.file) (split_n b' ' 3 (trim_space line))

unfoldable pub status_message : Running → Message
status_message r = if r.scan then scan_running else if r.compare then compare_running else idle

unfoldable pub entry_names : Option (List (Text × Bool)) → Option (List Text)
entry_names none = none
entry_names (some es) = some (map (λ e. e.0) es)

module _ (bcrypt : Bcrypt) (cron : Cron) (parse : ParseTime) (c : AgentConfig) where
  -- `state.scanRunning || state.compareRunning`, then the flag and the goroutine.
  unfoldable pub start_scan : Client → Agent cron → List Message × Agent cron
  start_scan cl a = if is_busy a.flags then (already_running ∷ done ∷ [], a) else (
    scan_started ∷ [],
    record a {
      flags = record a.flags { scan = true };
      background = scanning cl.number ∷ a.background;
    },
  )

  unfoldable pub start_compare : Client → Agent cron → List Text → List Message × Agent cron
  start_compare cl a (id1 ∷ id2 ∷ rest) =
      if is_busy a.flags then (already_running ∷ done ∷ [], a) else (
        compare_started ∷ [],
        record a {
          flags = record a.flags { compare = true };
          background = comparing cl.number id1 id2 ∷ a.background;
        },
      )
  start_compare cl a _ = (usage (lit "compare") ∷ done ∷ [], a)

  unfoldable pub read_report : Agent cron → Text → List Text → List Message × Agent cron
  read_report a cmd [] = (usage cmd ∷ done ∷ [], a)
  read_report a cmd (id ∷ rest) =
      (report_text (list_report_data_string c.report id a.reports.files) ∷ done ∷ [], a)

  unfoldable pub quick : Env → Agent cron → List Message × Agent cron
  unfolding entry_names
  quick env a =
      let (r, reports) =
        quick_compare_string parse c.report env.time env.compare_write (entry_names env.entries)
          a.reports in
      (quick_compared r ∷ done ∷ [], record a { reports = reports })

  unfoldable pub user_cmd : Env → Client → Agent cron → List Text → List Message × Agent cron
  user_cmd env cl a args =
      let (r, users) =
        user_command_as bcrypt env.users_fail env.salt c.users_db args cl.user cl.role a.users in
      (user_reply r ∷ done ∷ [], record a { users = users })

  unfoldable pub schedule_cmd : Env → Agent cron → List Text → List Message × Agent cron
  schedule_cmd env a args =
      let (out, sched) = handle_schedule_cmd cron env.sched_fails a.sched a.history args in
      (out, record a { sched = sched })

  unfoldable pub jobs_cmd : Agent cron → List Message
  jobs_cmd a = elim a.sched [
    | none ↦ no_scheduler ∷ done ∷ []
    | some s ↦ jobs_overview a.flags s.jobs a.history ∷ done ∷ []
  ]

  -- The last cases of the `switch`.
  unfoldable pub run_other :
      Env → Client → Agent cron → Text → List Text → List Message × Agent cron
  unfolding user_cmd schedule_cmd jobs_cmd
  run_other env cl a cmd args =
      if str_eq cmd (lit "metrics")
      then (metrics a.flags a.last_scan a.reports.last_compare ∷ done ∷ [], a)
      else if str_eq cmd (lit "schedule")
      then schedule_cmd env a args
      else if str_eq cmd (lit "user")
      then user_cmd env cl a args
      else if str_eq cmd (lit "whoami")
      then (whoami cl.user cl.role ∷ done ∷ [], a)
      else if str_eq cmd (lit "jobs")
      then (jobs_cmd a, a)
      else (unknown_command cmd ∷ available_commands ∷ done ∷ [], a)

  -- The `switch` on the first word.
  unfoldable pub run_command :
      Env → Client → Agent cron → Text → List Text → List Message × Agent cron
  unfolding start_scan start_compare read_report quick run_other
  run_command env cl a cmd args =
      if str_eq cmd (lit "scan")
      then start_scan cl a
      else if str_eq cmd (lit "list")
      then (report_list (list_reports c.report env.entries) ∷ done ∷ [], a)
      else if str_eq cmd (lit "data")
      then read_report a cmd args
      else if str_eq cmd (lit "fetch")
      then read_report a cmd args
      else if str_eq cmd (lit "compare")
      then start_compare cl a args
      else if str_eq cmd (lit "quickcompare")
      then quick env a
      else if str_eq cmd (lit "status")
      then (status_message a.flags ∷ done ∷ [], a)
      else run_other env cl a cmd args

  -- One line of an authenticated connection: nothing is written for a blank one.
  unfoldable pub handle_parts : Env → Client → Agent cron → List Text → List Message × Agent cron
  handle_parts env cl a [] = ([], a)
  handle_parts env cl a (cmd ∷ args) =
      let need = command_role (cmd ∷ args) in
      if not (role_allows cl.role need)
      then (denied cmd need cl.role ∷ done ∷ [], a)
      else run_command env cl a cmd args

  unfoldable pub handle_line : Env → Client → Agent cron → Text → List Message × Agent cron
  unfolding handle_parts
  handle_line env cl a line = handle_parts env cl a (fields (trim_space line))
