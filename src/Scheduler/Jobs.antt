-- ===== src/Scheduler/Jobs.antt =====
-- scheduler.go: the job list, its file and the cron engine.
use ship_grip_fim.Base.{
  ℕ, Bool, true, false, ◌≡◌, ◌||◌, ◌==◌, not, Option, none, some, List, [], ◌∷◌, ◌++◌, map, Text,
  lit, str_eq, if◌then◌else◌, is_comment, trim_space, split_n, scan_lines, max_scan_token, unlines,
  Read, contents, Result, ok, err,
}

-- cron.Cron: `AddFunc` refuses an expression that it cannot parse, and otherwise gives the entry a
-- new number; `Remove` takes exactly that entry away.
pub record Cron : Type 1 where
  pub Engine : Type 0
  pub new : Engine
  pub has_entry : Engine → ℕ → Bool
  pub add_func : Engine → Text → Option (Engine × ℕ)
  pub remove_entry : Engine → ℕ → Engine
  pub has_entry-new : (i : ℕ) → has_entry new i ≡ false
  pub add_fresh :
      (e e' : Engine) (schedule : Text) (i : ℕ)
      → add_func e schedule ≡ some (e', i)
      → has_entry e i ≡ false
  pub has_entry-add :
      (e e' : Engine) (schedule : Text) (i j : ℕ)
      → add_func e schedule ≡ some (e', i)
      → has_entry e' j ≡ (j == i) || has_entry e j
  pub has_entry-remove :
      (e : Engine) (i j : ℕ)
      → has_entry (remove_entry e i) j ≡ (if j == i then false else has_entry e j)

pub record SchedJob : Type 0 where
  pub entry_id : ℕ
  pub name : Text
  pub schedule : Text
  pub command : Text

pub data SchedError : Type 0 where
  unsupported_command job_exists invalid_schedule job_not_found : Text → SchedError

module _ (cron : Cron) where
  pub record Scheduler : Type 0 where
    pub engine : cron.Engine
    pub jobs : List SchedJob
    pub file : Read

  unfoldable pub registered :
      Scheduler → Text → Text → Text → Option (cron.Engine × ℕ) → Result SchedError Scheduler
  registered s name schedule command none = err (invalid_schedule schedule)
  registered s name schedule command (some (engine, id)) = ok (record s {
    engine = engine;
    jobs =
        s.jobs
        ++ record { entry_id = id; name = name; schedule = schedule; command = command } ∷ [];
  })

  unfoldable pub add_job_locked : Scheduler → Text → Text → Text → Result SchedError Scheduler
  unfolding registered
  add_job_locked s name schedule command =
      registered s name schedule command (cron.add_func s.engine schedule)

  -- A job that the engine refuses is reported and skipped.
  unfoldable pub or_same : Scheduler → Result SchedError Scheduler → Scheduler
  or_same s (err e) = s
  or_same s (ok s') = s'

  unfoldable pub load_parts : Scheduler → List Text → Scheduler
  unfolding or_same
  load_parts s (name ∷ schedule ∷ command ∷ []) =
      or_same s (add_job_locked s (trim_space name) (trim_space schedule) (trim_space command))
  load_parts s _ = s

  unfoldable pub load_line : Scheduler → Text → Scheduler
  unfolding load_parts
  load_line s raw =
      let line = trim_space raw in if is_comment line then s else load_parts s (split_n b'|' 3 line)

  unfoldable pub load_lines : Scheduler → List Text → Scheduler
  load_lines s [] = s
  load_lines s (l ∷ ls) = load_lines (load_line s l) ls

  unfoldable pub load_from_file : Scheduler → Scheduler
  load_from_file s = elim s.file [
    | contents t ↦ load_lines s (scan_lines max_scan_token t).0
    | _ ↦ s
  ]

  unfoldable pub init_scheduler : Read → Scheduler
  unfolding load_from_file
  init_scheduler file = load_from_file (record { engine = cron.new; jobs = []; file = file })

abbrev pub schedule_header : List Text
schedule_header =
    lit "# ship-grip-fim schedule configuration"
    ∷ lit "# format: name|cronExpression|command"
    ∷ lit "# Examples:"
    ∷ lit "#   daily_scan|@daily|scan"
    ∷ lit "#   nightly|0 2 * * *|scan"
    ∷ []
    ∷ []

unfoldable pub job_line : SchedJob → Text
job_line j = j.name ++ (b'|' ∷ (j.schedule ++ (b'|' ∷ j.command)))

unfoldable pub schedule_text : List SchedJob → Text
schedule_text jobs = unlines (schedule_header ++ map job_line jobs)

unfoldable pub has_job : Text → List SchedJob → Bool
has_job name [] = false
has_job name (j ∷ js) = str_eq j.name name || has_job name js

-- The number of the first job of that name, and the list without it.
unfoldable pub take_job : Text → List SchedJob → Option (ℕ × List SchedJob)
take_job name [] = none
take_job name (j ∷ js) =
    let rest = take_job name js in
    if str_eq j.name name
    then some (j.entry_id, js)
    else elim rest [ none ↦ none | some (id, js') ↦ some (id, j ∷ js') ]

module _ (cron : Cron) where
  -- os.Create fails, or the whole file is written.
  unfoldable pub save : Bool → Scheduler cron → Scheduler cron
  save true s = s
  save false s = record s { file = contents (schedule_text s.jobs) }

  unfoldable pub saved :
      Bool → Result SchedError (Scheduler cron) → Result SchedError (Scheduler cron)
  saved fails (err e) = err e
  saved fails (ok s) = ok (save fails s)

  unfoldable pub add_job :
      Bool → Scheduler cron → Text → Text → Text → Result SchedError (Scheduler cron)
  unfolding saved
  add_job fails s name schedule command =
      if not (str_eq command (lit "scan"))
      then err (unsupported_command command)
      else if has_job name s.jobs
      then err (job_exists name)
      else saved fails (add_job_locked cron s name schedule command)

  unfoldable pub removed :
      Bool → Scheduler cron → Text → Option (ℕ × List SchedJob) → Result SchedError (Scheduler cron)
  removed fails s name none = err (job_not_found name)
  removed fails s name (some (id, js)) =
      ok (save fails (record s { jobs = js; engine = cron.remove_entry s.engine id }))

  unfoldable pub remove_job : Bool → Scheduler cron → Text → Result SchedError (Scheduler cron)
  unfolding removed
  remove_job fails s name = removed fails s name (take_job name s.jobs)
