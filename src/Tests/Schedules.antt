-- ===== src/Tests/Schedules.antt =====
-- A job that runs at night.
use ship_grip_fim.Base.{
  ℕ, Option, Text, here, true, false, not, ◌≡◌, refl, none, some, List, [], ◌∷◌, ◌++◌, map, lit,
  arith, length, missing, ok, byte_length, trim_space, is_space, str_eq, trim_left, trim_right,
  drop_cr, utf8_width, has_prefix,
}
use ship_grip_fim.Scheduler.Jobs.{
  SchedJob, Scheduler, init_scheduler, add_job, add_job_locked, has_job, save, load_line, job_line,
}
use ship_grip_fim.Scheduler.File.{IsSaved, Parses, described, schedule_round_trip, comment_job_lost}
use ship_grip_fim.Scheduler.Names.{Reached, started, added, IsRegistered, Reached-IsRegistered}
use ship_grip_fim.Scheduler.History.{
  Running, JobRun, running, complete, skipped, record_run, record_run_keeps, begin_job, end_job,
  is_busy, job_cycle, recent,
}
use ship_grip_fim.Hosts.Tables.{columns}
use ship_grip_fim.Scheduler.Tables.{next_run_for, job_row}
use ship_grip_fim.Scheduler.Tables.Next.{DistinctNames, next_run_shown}
use ship_grip_fim.Tests.Instances.{toy_cron}

abbrev nightly : SchedJob
nightly = record {
  entry_id = 1;
  name = lit "nightly";
  schedule = lit "@daily";
  command = lit "scan";
}

abbrev one_job : Scheduler toy_cron
one_job = record { engine = 1 ∷ []; jobs = nightly ∷ []; file = missing }

abbrev no_jobs : Scheduler toy_cron
no_jobs = record { engine = []; jobs = []; file = missing }

nightly-IsSaved : IsSaved nightly
unfolding job_line lit trim_space trim_left trim_right is_space has_prefix drop_cr byte_length
    utf8_width
nightly-IsSaved = record {
  line = record { one_line = refl; no_cr = refl; fits = ground arith };
  line_trimmed = refl;
  no_comment = refl;
  name_no_bar = refl;
  name_trimmed = refl;
  schedule_no_bar = refl;
  schedule_trimmed = refl;
  command_trimmed = refl;
}

nightly-Parses : Parses toy_cron nightly
unfolding lit
nightly-Parses e = refl

schedule_round_trip_example :
    map described (init_scheduler toy_cron (save toy_cron false one_job).file).jobs
    ≡ map described one_job.jobs
schedule_round_trip_example =
    schedule_round_trip toy_cron one_job (nightly-IsSaved, tt) (nightly-Parses, tt)

nightly_added :
    add_job toy_cron true no_jobs (lit "nightly") (lit "@daily") (lit "scan") ≡ ok one_job
unfolding add_job has_job lit str_eq add_job_locked save
nightly_added = refl

started_empty : Reached toy_cron missing no_jobs
unfolding init_scheduler
started_empty = started

Reached-IsRegistered_example : IsRegistered toy_cron one_job
Reached-IsRegistered_example =
    Reached-IsRegistered toy_cron missing
      (added one_job true (lit "nightly") (lit "@daily") (lit "scan") started_empty nightly_added)

abbrev next_run : ℕ → Option ℕ
next_run id = some 7

abbrev format : ℕ → Text
format t = lit "later"

no_names : DistinctNames (init_scheduler toy_cron missing).jobs
unfolding init_scheduler
no_names = tt

next_run_shown_example :
    (next : Text) × (next_run_for next_run format (lit "nightly") one_job.jobs ≡ next)
    × (job_row next_run format nightly
        ≡ columns ((20, lit "nightly") ∷ (22, lit "@daily") ∷ (8, lit "scan") ∷ []) next)
next_run_shown_example =
    next_run_shown toy_cron next_run format missing one_job nightly no_names
      (added one_job true (lit "nightly") (lit "@daily") (lit "scan") started_empty nightly_added)
      here

not_there : has_job (b'#' ∷ lit "n") no_jobs.jobs ≡ false
unfolding has_job
not_there = refl

parsed : toy_cron.add_func no_jobs.engine (lit "@daily") ≡ some (1 ∷ [], 1)
unfolding lit
parsed = refl

comment_job_lost_example :
    (add_job toy_cron true no_jobs (b'#' ∷ lit "n") (lit "@daily") (lit "scan")
      ≡ ok (
          save toy_cron true (record no_jobs {
            engine = 1 ∷ [];
            jobs =
                record {
                  entry_id = 1;
                  name = b'#' ∷ lit "n";
                  schedule = lit "@daily";
                  command = lit "scan";
                }
                ∷ [];
          })))
    × (load_line toy_cron one_job (
          job_line (record {
            entry_id = 1;
            name = b'#' ∷ lit "n";
            schedule = lit "@daily";
            command = lit "scan";
          }))
        ≡ one_job)
comment_job_lost_example =
    comment_job_lost toy_cron true no_jobs one_job (lit "n") (lit "@daily") not_there (1 ∷ [], 1)
      parsed

abbrev first_run : JobRun
first_run = record { name = lit "a"; start_time = 1; end_time = some 2; status = complete }

record_run_keeps_example :
    (older : List JobRun) × (first_run
        ∷ record { name = lit "b"; start_time = 3; end_time = none; status = running }
        ∷ []
      ≡ older ++ record_run (lit "b") 3 none running (first_run ∷ []))
    × (length (record_run (lit "b") 3 none running (first_run ∷ [])) ≡ 2)
record_run_keeps_example = record_run_keeps (lit "b") 3 none running (first_run ∷ [])

abbrev flags : Running
flags = record { scan = false; compare = false }

job_cycle_example :
    let (runs, state) = begin_job (lit "b") 3 (flags, first_run ∷ []) in
    (runs ≡ not (is_busy flags))
    × (runs ≡ false
        → state ≡ (
          flags,
          recent (first_run ∷ [])
              ++ record { name = lit "b"; start_time = 3; end_time = some 3; status = skipped }
                ∷ [],
        ))
    × (runs ≡ true
        → (state.0.scan ≡ true)
          × (end_job (lit "b") 3 4 complete state ≡ (
            flags,
            recent (first_run ∷ [])
                ++ record { name = lit "b"; start_time = 3; end_time = some 4; status = complete }
                  ∷ [],
          )))
job_cycle_example = job_cycle (lit "b") 3 4 complete flags (first_run ∷ [])
