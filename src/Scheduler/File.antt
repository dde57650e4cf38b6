-- ===== src/Scheduler/File.antt =====
-- scheduler.go: the schedule file that `save` writes, read by `loadFromFile` after a restart.
use ship_grip_fim.Base.{
  ℕ, Bool, true, false, ◌≡◌, refl, ap, ◌∙◌, inl, inr, ◌==◌, some, Option-cases, List, [], ◌∷◌, ◌++◌,
  map, arith, Text, lit, ok, contents, trim_space, trim_left, trim_right, is_space, is_comment,
  has_prefix, split_n, split_n-append, max_scan_token, scan_lines-unlines, All, All-append, IsLine,
  any, is_some, drop_cr, byte_length, map-append, append-nil, append_assoc, ◌<◌, str_eq_refl,
}
use ship_grip_fim.Scheduler.Jobs.{
  Cron, SchedJob, Scheduler, registered, add_job_locked, load_line, load_lines, load_parts,
  load_from_file, init_scheduler, or_same, job_line, schedule_header, schedule_text, add_job,
  has_job, save, saved,
}

abbrev is_bar : ℕ → Bool
is_bar d = d == b'|'

-- A job whose line in the schedule file is read as that job.
pub record IsSaved (j : SchedJob) : Type 0 where
  pub line : IsLine max_scan_token (job_line j)
  pub line_trimmed : trim_space (job_line j) ≡ job_line j
  pub no_comment : has_prefix (b'#' ∷ []) j.name ≡ false
  pub name_no_bar : any is_bar j.name ≡ false
  pub name_trimmed : trim_space j.name ≡ j.name
  pub schedule_no_bar : any is_bar j.schedule ≡ false
  pub schedule_trimmed : trim_space j.schedule ≡ j.schedule
  pub command_trimmed : trim_space j.command ≡ j.command

-- A job without the number of its entry.
abbrev pub described : SchedJob → Text × Text × Text
described j = (j.name, j.schedule, j.command)

no_comment_line :
    (n rest : Text) → has_prefix (b'#' ∷ []) n ≡ false → is_comment (n ++ (b'|' ∷ rest)) ≡ false
unfolding is_comment
no_comment_line [] rest h = refl
no_comment_line (c ∷ n) rest h = ground arith

module _ (cron : Cron) where
  -- The cron engine parses the job's schedule, whatever entries it has.
  abbrev pub Parses : SchedJob → Type 0
  Parses j = (e : cron.Engine) → is_some (cron.add_func e j.schedule) ≡ true

  load-job_line :
      (s : Scheduler cron) (j : SchedJob)
      → IsSaved j
      → load_line cron s (job_line j)
        ≡ or_same cron s (add_job_locked cron s j.name j.schedule j.command)
  unfolding load_line load_parts job_line
  load-job_line s j i =
      rw
        (
          i.line_trimmed,
          no_comment_line j.name (j.schedule ++ (b'|' ∷ j.command)) i.no_comment,
          split_n-append b'|' 1 j.name (j.schedule ++ (b'|' ∷ j.command)) i.name_no_bar,
          split_n-append b'|' 0 j.schedule j.command i.schedule_no_bar,
        )
        (unfold split_n in rw (i.name_trimmed, i.schedule_trimmed, i.command_trimmed) refl)

  added_jobs :
      (s : Scheduler cron) (j : SchedJob)
      → Parses j
      → map described (or_same cron s (add_job_locked cron s j.name j.schedule j.command)).jobs
        ≡ map described s.jobs ++ described j ∷ []
  unfolding or_same add_job_locked registered
  added_jobs s j p = elim (Option-cases (cron.add_func s.engine j.schedule)) [
    | inl e ↦ absurd (ground (arith, p s.engine))
    | inr (added, e) ↦ rw (e, map-append) refl
  ]

  load_lines-jobs :
      (s : Scheduler cron) (jobs : List SchedJob)
      → All IsSaved jobs
      → All Parses jobs
      → map described (load_lines cron s (map job_line jobs)).jobs
        ≡ map described s.jobs ++ map described jobs
  unfolding load_lines
  load_lines-jobs s [] i p = rw append-nil refl
  load_lines-jobs s (j ∷ jobs) i p =
      let s' = or_same cron s (add_job_locked cron s j.name j.schedule j.command) in
      ap (λ (t : Scheduler cron). map described (load_lines cron t (map job_line jobs)).jobs)
        (load-job_line s j i.0)
      ∙ load_lines-jobs s' jobs i.1 p.1
      ∙ ap (λ ds. ds ++ map described jobs) (added_jobs s j p.0)
      ∙ append_assoc (map described s.jobs) (described j ∷ []) (map described jobs)

  header_skipped :
      (s : Scheduler cron) (ls : List Text)
      → load_lines cron s (schedule_header ++ ls) ≡ load_lines cron s ls
  unfolding load_lines load_line lit is_comment trim_space
  header_skipped s ls = refl

  lines-IsLine :
      (jobs : List SchedJob) → All IsSaved jobs → All (IsLine max_scan_token) (map job_line jobs)
  lines-IsLine [] i = tt
  lines-IsLine (j ∷ jobs) i = (i.0.line, lines-IsLine jobs i.1)

  header-IsLine : All (IsLine max_scan_token) schedule_header
  unfolding lit drop_cr byte_length
  header-IsLine = (
    plain refl refl (omega arith),
    (
      plain refl refl (omega arith),
      (
        plain refl refl (omega arith),
        (
          plain refl refl (omega arith),
          (plain refl refl (omega arith), (plain refl refl (omega arith), tt)),
        ),
      ),
    ),
  )
    where
      plain :
          {l : Text}
          → any (λ d. d == 10) l ≡ false
          → drop_cr l ≡ l
          → byte_length l < max_scan_token
          → IsLine max_scan_token l
      plain a b c = record { one_line = a; no_cr = b; fits = c }

  -- A scheduler that starts from the file that `save` wrote has the same jobs in the same order:
  -- names, schedules and commands. The jobs are such that their lines read back, and the cron
  -- engine parses their schedules.
  pub schedule_round_trip :
      (s : Scheduler cron)
      → All IsSaved s.jobs
      → All Parses s.jobs
      → map described (init_scheduler cron (save cron false s).file).jobs ≡ map described s.jobs
  unfolding init_scheduler load_from_file save schedule_text
  schedule_round_trip s i p =
      rw
        (
          scan_lines-unlines max_scan_token (schedule_header ++ map job_line s.jobs) (
              All-append (IsLine max_scan_token) schedule_header (map job_line s.jobs) header-IsLine
                (lines-IsLine s.jobs i)),
          header_skipped,
        )
        (load_lines-jobs
          (record { engine = cron.new; jobs = []; file = contents (schedule_text s.jobs) }) s.jobs i
          p)

  trimmed_hash : (s : Text) → has_prefix (b'#' ∷ []) (trim_space (b'#' ∷ s)) ≡ true
  unfolding trim_space trim_left trim_right has_prefix is_space
  trimmed_hash s = refl

  -- A job whose name starts with '#' is accepted by `AddJob`, if no other job has the name and the
  -- engine parses the schedule, but the line that is saved for it is skipped as a comment when the
  -- schedule is loaded again: the job is lost at the next restart.
  pub comment_job_lost :
      (fails : Bool) (s any_s : Scheduler cron) (rest schedule : Text)
      → has_job (b'#' ∷ rest) s.jobs ≡ false
      → (added : cron.Engine × ℕ) → cron.add_func s.engine schedule ≡ some added
      → let j : SchedJob = record {
        entry_id = added.1;
        name = b'#' ∷ rest;
        schedule = schedule;
        command = lit "scan";
      } in
        (add_job cron fails s (b'#' ∷ rest) schedule (lit "scan")
          ≡ ok (save cron fails (record s { engine = added.0; jobs = s.jobs ++ j ∷ [] })))
        × (load_line cron any_s (job_line j) ≡ any_s)
  unfolding add_job saved add_job_locked registered
  comment_job_lost fails s any_s rest schedule new added h = (
    rw (str_eq_refl, new, h) refl,
    unfold load_line job_line is_comment in
        rw (trimmed_hash (rest ++ (b'|' ∷ (schedule ++ (b'|' ∷ lit "scan"))))) (ground arith),
  )
