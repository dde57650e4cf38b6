-- ===== src/Scheduler/Tables/Next.antt =====
-- scheduler.go: names of jobs stay apart, so `NextRunFor` finds the job that is meant.
use ship_grip_fim.Base.{
  ℕ, Bool, true, false, ◌≡◌, refl, sym, ap, ◌∙◌, subst, ◌||◌, not, Option, none, some, inl, inr,
  Bool-cases, List, [], ◌∷◌, ◌++◌, Text, lit, str_eq, str_eq_refl, str_eq_iff, if◌then◌else◌,
  if_both, In, here, there, arith, Read, Result, ok, err,
}
use ship_grip_fim.Scheduler.Jobs.{
  Cron, SchedJob, SchedError, unsupported_command, job_exists, Scheduler, registered,
  add_job_locked, init_scheduler, has_job, take_job, save, saved, add_job, remove_job, removed,
}
use ship_grip_fim.Scheduler.Names.{Reached, started, added, removed_one}
use ship_grip_fim.Scheduler.Tables.{time_or_dash, job_row, next_run_for}
use ship_grip_fim.Hosts.Tables.{columns}

-- No name twice.
abbrev pub DistinctNames : List SchedJob → Type 0
DistinctNames [] = Unit
DistinctNames (j ∷ js) = (has_job j.name js ≡ false) × DistinctNames js

In-has_job : (j : SchedJob) (js : List SchedJob) → In j js → has_job j.name js ≡ true
unfolding has_job
In-has_job j [] m = elim m [ ]
In-has_job j (k ∷ js) here = rw (str_eq_refl j.name) refl
In-has_job j (k ∷ js) (there m) = ground (arith, In-has_job j js m)

other_name :
    (name : Text) (j : SchedJob) (js : List SchedJob)
    → has_job name js ≡ false
    → In j js
    → str_eq name j.name ≡ false
other_name name j js h m = elim (Bool-cases (str_eq name j.name)) [
  | inl e ↦
      cc (sym (In-has_job j js m) ∙ ap (λ n. has_job n js) (sym ((str_eq_iff name j.name).0 e)) ∙ h)
  | inr e ↦ e
]

next_shown :
    (next_run : ℕ → Option ℕ) (format : ℕ → Text) (js : List SchedJob) (j : SchedJob)
    → DistinctNames js
    → In j js
    → next_run_for next_run format j.name js ≡ time_or_dash next_run format (next_run j.entry_id)
unfolding next_run_for
next_shown next_run format [] j d m = elim m [ ]
next_shown next_run format (k ∷ js) j d here = rw (str_eq_refl j.name) refl
next_shown next_run format (k ∷ js) j d (there m) =
    rw (other_name k.name j js d.0 m) (next_shown next_run format js j d.1 m)

has_job-append :
    (name : Text) (js : List SchedJob) (j : SchedJob)
    → has_job name (js ++ j ∷ []) ≡ has_job name js || str_eq j.name name
unfolding has_job
has_job-append name [] j = ground arith
has_job-append name (k ∷ js) j = ground (arith, has_job-append name js j)

apart : (a b : Text) → str_eq a b ≡ false → str_eq b a ≡ false
apart a b h = elim (Bool-cases (str_eq b a)) [
  | inl e ↦ cc (sym (str_eq_refl b) ∙ ap (λ n. str_eq n b) ((str_eq_iff b a).0 e) ∙ h)
  | inr e ↦ e
]

append-DistinctNames :
    (js : List SchedJob) (j : SchedJob)
    → DistinctNames js
    → has_job j.name js ≡ false
    → DistinctNames (js ++ j ∷ [])
unfolding has_job
append-DistinctNames [] j d h = (refl, tt)
append-DistinctNames (k ∷ js) j d h = (
  ground (arith, has_job-append k.name js j, d.0, apart k.name j.name (ground arith)),
  append-DistinctNames js j d.1 (ground arith),
)

-- What taking a job leaves.
abbrev IsLeft : List SchedJob → Option (ℕ × List SchedJob) → Type 0
IsLeft js none = Unit
IsLeft js (some (id, left)) =
    DistinctNames left × ((name : Text) → has_job name js ≡ false → has_job name left ≡ false)

take_job-IsLeft :
    (name : Text) (js : List SchedJob) → DistinctNames js → IsLeft js (take_job name js)
unfolding take_job has_job
take_job-IsLeft name [] d = tt
take_job-IsLeft name (j ∷ js) d =
    if_both (IsLeft (j ∷ js)) (str_eq j.name name) (some (j.entry_id, js)) _
      (d.1, λ n h. ground arith) (deeper (take_job name js) (take_job-IsLeft name js d.1))
  where
    deeper :
        (o : Option (ℕ × List SchedJob))
        → IsLeft js o
        → IsLeft (j ∷ js) (elim o [ none ↦ none | some (id, left) ↦ some (id, j ∷ left) ])
    deeper none p = tt
    deeper (some (id, left)) p = ((p.1 j.name d.0, p.0), λ n h. ground (arith, p.1 n))

module _ (cron : Cron) where
  -- What holds of the scheduler of a call that succeeded.
  abbrev IsAfter : Result SchedError (Scheduler cron) → Type 0
  IsAfter (err e) = Unit
  IsAfter (ok s) = DistinctNames s.jobs

  saved-IsAfter :
      (fails : Bool) (r : Result SchedError (Scheduler cron))
      → IsAfter r
      → IsAfter (saved cron fails r)
  unfolding saved save
  saved-IsAfter fails (err e) h = tt
  saved-IsAfter true (ok s) h = h
  saved-IsAfter false (ok s) h = h

  add_job-IsAfter :
      (fails : Bool) (s : Scheduler cron) (name schedule command : Text)
      → DistinctNames s.jobs
      → IsAfter (add_job cron fails s name schedule command)
  unfolding add_job add_job_locked
  add_job-IsAfter fails s name schedule command d =
      if_both IsAfter (not (str_eq command (lit "scan"))) (err (unsupported_command command)) _ tt
        (unless (has_job name s.jobs) refl)
    where
      added_by :
          (o : Option (cron.Engine × ℕ))
          → has_job name s.jobs ≡ false
          → IsAfter (registered cron s name schedule command o)
      added_by none h = tt
      added_by (some (engine, id)) h = append-DistinctNames s.jobs _ d h

      unless :
          (b : Bool)
          → has_job name s.jobs ≡ b
          → IsAfter (
              if b
              then err (job_exists name)
              else saved cron fails
                  (registered cron s name schedule command (cron.add_func s.engine schedule)))
      unless true h = tt
      unless false h = saved-IsAfter fails _ (added_by (cron.add_func s.engine schedule) h)

  remove_job-IsAfter :
      (fails : Bool) (s : Scheduler cron) (name : Text)
      → DistinctNames s.jobs
      → IsAfter (remove_job cron fails s name)
  unfolding remove_job removed save saved
  remove_job-IsAfter fails s name d = by_take (take_job name s.jobs) (take_job-IsLeft name s.jobs d)
    where
      by_take :
          (o : Option (ℕ × List SchedJob)) → IsLeft s.jobs o → IsAfter (removed cron fails s name o)
      by_take none h = tt
      by_take (some (id, js)) h =
          saved-IsAfter fails (ok (record s { jobs = js; engine = cron.remove_entry s.engine id }))
            h.0

  Reached-DistinctNames :
      (file : Read) {s : Scheduler cron}
      → DistinctNames (init_scheduler cron file).jobs
      → Reached cron file s
      → DistinctNames s.jobs
  Reached-DistinctNames file d started = d
  Reached-DistinctNames file d (added {s} s' fails n e c r h) =
      subst IsAfter h (add_job-IsAfter fails s n e c (Reached-DistinctNames file d r))
  Reached-DistinctNames file d (removed_one {s} s' fails n r h) =
      subst IsAfter h (remove_job-IsAfter fails s n (Reached-DistinctNames file d r))

  -- After any additions and removals, from a schedule file without a name twice, `NextRunFor` gives for
  -- the name of each job the next run of this job, which its row of the table shows.
  pub next_run_shown :
      (next_run : ℕ → Option ℕ) (format : ℕ → Text) (file : Read) (s : Scheduler cron)
      (j : SchedJob)
      → DistinctNames (init_scheduler cron file).jobs
      → Reached cron file s
      → In j s.jobs
      → (next : Text) × (next_run_for next_run format j.name s.jobs ≡ next)
        × (job_row next_run format j
            ≡ columns ((20, j.name) ∷ (22, j.schedule) ∷ (8, j.command) ∷ []) next)
  unfolding job_row
  next_run_shown next_run format file s j d r m = (
    time_or_dash next_run format (next_run j.entry_id),
    next_shown next_run format s.jobs j (Reached-DistinctNames file d r) m,
    refl,
  )
