-- ===== src/Scheduler/Names.antt =====
-- scheduler.go: the job list and the cron engine agree, and `AddJob` keeps names apart.
use ship_grip_fim.Base.{
  ℕ, Bool, true, false, ◌≡◌, refl, sym, subst, ◌∙◌, inl, inr, ◌||◌, ◌==◌, some, Option-cases, List,
  [], ◌∷◌, ◌++◌, arith, Text, str_eq, if◌then◌else◌, Bool-cases, Result, ok, err, Read, contents,
  missing, failed, trim_space, is_comment, split_n, scan_lines, max_scan_token,
}
use mathlib.Core.Path.{subst₂}
use ship_grip_fim.Scheduler.Jobs.{
  Cron, SchedJob, SchedError, Scheduler, registered, add_job_locked, load_line, load_lines,
  load_parts, load_from_file, init_scheduler, or_same, take_job, save, saved, add_job, remove_job,
}

abbrev pub has_id : ℕ → List SchedJob → Bool
has_id i [] = false
has_id i (j ∷ js) = i == j.entry_id || has_id i js

-- No entry number twice.
abbrev pub DistinctIds : List SchedJob → Type 0
DistinctIds [] = Unit
DistinctIds (j ∷ js) = (has_id j.entry_id js ≡ false) × DistinctIds js

has_id-append :
    (i : ℕ) (js : List SchedJob) (j : SchedJob)
    → has_id i (js ++ j ∷ []) ≡ has_id i js || (i == j.entry_id)
has_id-append i [] j = ground arith
has_id-append i (x ∷ js) j = ground (arith, has_id-append i js j)

DistinctIds-append :
    (js : List SchedJob) (j : SchedJob)
    → DistinctIds js
    → has_id j.entry_id js ≡ false
    → DistinctIds (js ++ j ∷ [])
DistinctIds-append [] j d h = (refl, tt)
DistinctIds-append (x ∷ js) j d h =
    (ground (arith, has_id-append x.entry_id js j, d.0), DistinctIds-append js j d.1 (ground arith))

-- What removing the entry `id` from `js` gives.
abbrev Taken : ℕ → List SchedJob → List SchedJob → Type 0
Taken id js js' =
    (has_id id js ≡ true)
    × ((i : ℕ) → has_id i js' ≡ (if i == id then false else has_id i js))
    × DistinctIds js'

Taken-head :
    (j : SchedJob) (js : List SchedJob) → DistinctIds (j ∷ js) → Taken j.entry_id (j ∷ js) js
Taken-head j js d = (ground arith, λ i. ground (arith, d.0), d.1)

Taken-tail :
    (j : SchedJob) (id : ℕ) (js rest : List SchedJob)
    → DistinctIds (j ∷ js)
    → Taken id js rest
    → Taken id (j ∷ js) (j ∷ rest)
Taken-tail j id js rest d t = (
  ground (arith, t.0),
  λ i. ground (arith, t.0, t.1 i, d.0),
  (ground (arith, t.0, t.1 j.entry_id, d.0), t.2),
)

take_job_ids :
    (name : Text) (js js' : List SchedJob) (id : ℕ)
    → DistinctIds js
    → take_job name js ≡ some (id, js')
    → Taken id js js'
unfolding take_job
take_job_ids name [] js' id d h = cc
take_job_ids name (j ∷ js) js' id d h = elim (Bool-cases (str_eq j.name name)) [
  | inl e ↦
      let same_id : id ≡ j.entry_id = ground arith in
      let same : js' ≡ js = ground arith in
      subst₂ (λ x y. Taken x (j ∷ js) y) (sym same_id) (sym same) (Taken-head j js d)
  | inr e ↦ elim (Option-cases (take_job name js)) [
    | inl n ↦ absurd (ground arith)
    | inr (found, s) ↦
        let same_id : id ≡ found.0 = ground arith in
        let same : js' ≡ j ∷ found.1 = ground arith in
        subst₂ (λ x y. Taken x (j ∷ js) y) (sym same_id) (sym same)
          (Taken-tail j found.0 js found.1 d (take_job_ids name js found.1 found.0 d.1 s))
  ]
]

module _ (cron : Cron) where
  -- The engine has exactly the entries of the job list, each once.
  pub record IsRegistered (s : Scheduler cron) : Type 0 where
    pub entries : (i : ℕ) → cron.has_entry s.engine i ≡ has_id i s.jobs
    pub once : DistinctIds s.jobs

  add_job_locked-IsRegistered :
      (s s' : Scheduler cron) (name schedule command : Text)
      → IsRegistered s
      → add_job_locked cron s name schedule command ≡ ok s'
      → IsRegistered s'
  unfolding add_job_locked registered
  add_job_locked-IsRegistered s s' name schedule command r h =
      elim (Option-cases (cron.add_func s.engine schedule)) [
        | inl e ↦ absurd (ground arith)
        | inr (added, e) ↦
            let j : SchedJob = record {
              entry_id = added.1;
              name = name;
              schedule = schedule;
              command = command;
            } in
            let same : s' ≡ record s { engine = added.0; jobs = s.jobs ++ j ∷ [] } = ground arith in
            let new = cron.add_fresh s.engine added.0 schedule added.1 e in
            rw same (record {
              entries = λ i.
                  cron.has_entry-add s.engine added.0 schedule added.1 i e
                  ∙ ground (arith, r.entries i, has_id-append i s.jobs j);
              once = DistinctIds-append s.jobs j r.once (ground (arith, r.entries added.1, new));
            })
      ]

  save-IsRegistered :
      (fails : Bool) (s : Scheduler cron) → IsRegistered s → IsRegistered (save cron fails s)
  unfolding save
  save-IsRegistered true s r = r
  save-IsRegistered false s r = record { entries = r.entries; once = r.once }

  saved-IsRegistered :
      (fails : Bool) (s' : Scheduler cron) (o : Result SchedError (Scheduler cron))
      → ((s : Scheduler cron) → o ≡ ok s → IsRegistered s)
      → saved cron fails o ≡ ok s'
      → IsRegistered s'
  unfolding saved
  saved-IsRegistered fails s' (err e) f h = absurd (ground arith)
  saved-IsRegistered fails s' (ok s) f h =
      subst IsRegistered {x = save cron fails s} (ground arith)
        (save-IsRegistered fails s (f s refl))

  add_job-IsRegistered :
      (fails : Bool) (s s' : Scheduler cron) (name schedule command : Text)
      → IsRegistered s
      → add_job cron fails s name schedule command ≡ ok s'
      → IsRegistered s'
  unfolding add_job
  add_job-IsRegistered fails s s' name schedule command r h =
      saved-IsRegistered fails s' (add_job_locked cron s name schedule command)
        (λ s₀ e. add_job_locked-IsRegistered s s₀ name schedule command r e) (ground arith)

  remove_job-IsRegistered :
      (fails : Bool) (s s' : Scheduler cron) (name : Text)
      → IsRegistered s
      → remove_job cron fails s name ≡ ok s'
      → IsRegistered s'
  unfolding remove_job
  remove_job-IsRegistered fails s s' name r h = elim (Option-cases (take_job name s.jobs)) [
    | inl e ↦ absurd (ground arith)
    | inr (taken, e) ↦
        let t = take_job_ids name s.jobs taken.1 taken.0 r.once e in
        let s₀ : Scheduler cron = record s {
          jobs = taken.1;
          engine = cron.remove_entry s.engine taken.0;
        } in
        subst IsRegistered {x = save cron fails s₀} (ground arith) (
          save-IsRegistered fails s₀ (record {
            entries =
                λ i. cron.has_entry-remove s.engine taken.0 i ∙ ground (arith, r.entries i, t.1 i);
            once = t.2;
          }))
  ]

  or_same-IsRegistered :
      (s : Scheduler cron) (o : Result SchedError (Scheduler cron))
      → IsRegistered s
      → ((s' : Scheduler cron) → o ≡ ok s' → IsRegistered s')
      → IsRegistered (or_same cron s o)
  unfolding or_same
  or_same-IsRegistered s (err e) r f = r
  or_same-IsRegistered s (ok s') r f = f s' refl

  load_parts-IsRegistered :
      (s : Scheduler cron) (parts : List Text)
      → IsRegistered s
      → IsRegistered (load_parts cron s parts)
  unfolding load_parts
  load_parts-IsRegistered s (n ∷ e ∷ c ∷ []) r =
      or_same-IsRegistered s (add_job_locked cron s (trim_space n) (trim_space e) (trim_space c)) r
        (λ s' h. add_job_locked-IsRegistered s s' (trim_space n) (trim_space e) (trim_space c) r h)
  load_parts-IsRegistered s _ r = r

  load_line-IsRegistered :
      (s : Scheduler cron) (l : Text) → IsRegistered s → IsRegistered (load_line cron s l)
  unfolding load_line
  load_line-IsRegistered s l r = elim (Bool-cases (is_comment (trim_space l))) [
    | inl e ↦ rw e r
    | inr e ↦ rw e (load_parts-IsRegistered s (split_n b'|' 3 (trim_space l)) r)
  ]

  load_lines-IsRegistered :
      (s : Scheduler cron) (ls : List Text) → IsRegistered s → IsRegistered (load_lines cron s ls)
  unfolding load_lines
  load_lines-IsRegistered s [] r = r
  load_lines-IsRegistered s (l ∷ ls) r =
      load_lines-IsRegistered (load_line cron s l) ls (load_line-IsRegistered s l r)

  new-IsRegistered :
      (file : Read) → IsRegistered (record { engine = cron.new; jobs = []; file = file })
  new-IsRegistered file = record { entries = cron.has_entry-new; once = tt }

  init-IsRegistered : (file : Read) → IsRegistered (init_scheduler cron file)
  unfolding init_scheduler load_from_file
  init-IsRegistered missing = new-IsRegistered missing
  init-IsRegistered failed = new-IsRegistered failed
  init-IsRegistered (contents t) =
      load_lines-IsRegistered (record { engine = cron.new; jobs = []; file = contents t })
        (scan_lines max_scan_token t).0 (new-IsRegistered (contents t))

  -- A scheduler after it was started and any number of jobs were added and removed.
  pub data Reached (file : Read) : Scheduler cron → Type 0 where
    started : Reached file (init_scheduler cron file)
    added :
        {s : Scheduler cron} (s' : Scheduler cron) (fails : Bool) (name schedule command : Text)
        → Reached file s
        → add_job cron fails s name schedule command ≡ ok s'
        → Reached file s'
    removed_one :
        {s : Scheduler cron} (s' : Scheduler cron) (fails : Bool) (name : Text)
        → Reached file s
        → remove_job cron fails s name ≡ ok s'
        → Reached file s'

  -- Whatever the schedule file held, and after any additions and removals, saved or not, the cron
  -- engine has exactly the entries of the job list: no removed job runs, and no listed job is lost.
  pub Reached-IsRegistered : (file : Read) {s : Scheduler cron} → Reached file s → IsRegistered s
  Reached-IsRegistered file started = init-IsRegistered file
  Reached-IsRegistered file (added {s} s' fails n e c r h) =
      add_job-IsRegistered fails s s' n e c (Reached-IsRegistered file r) h
  Reached-IsRegistered file (removed_one {s} s' fails n r h) =
      remove_job-IsRegistered fails s s' n (Reached-IsRegistered file r) h
