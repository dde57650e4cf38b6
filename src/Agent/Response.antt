-- ===== src/Agent/Response.antt =====
-- agent_server.go: what every command line is answered with.
use ship_grip_fim.Base.{
  ℕ, Bool, true, false, ◌≡◌, refl, ◌⊎◌, inl, inr, not, none, some, List, [], ◌∷◌, Text, arith,
  Bool-cases, if_both, str_eq, lit, fields, trim_space, Result, ok, err, split_n, join, Option,
  Option-cases, is_nil, ◌==◌, ◌&&◌,
}
use ship_grip_fim.Auth.Roles.{command_role, role_allows}
use ship_grip_fim.Auth.Users.{Bcrypt}
use ship_grip_fim.QuickCompare.{ParseTime}
use ship_grip_fim.Scheduler.Jobs.{Cron, Scheduler, SchedError, add_job, remove_job}
use ship_grip_fim.Scheduler.History.{Running, JobRun, is_busy}
use ship_grip_fim.Agent.{
  Work, scanning, comparing, job_scan, AgentConfig, Agent, Env, Message, done,
}
use ship_grip_fim.Agent.Schedule.{
  handle_schedule_cmd, schedule_sub, schedule_add, schedule_remove, add_fields, after,
}
use ship_grip_fim.Agent.Command.{
  Client, handle_line, handle_parts, run_command, start_scan, start_compare, read_report, quick,
  user_cmd, schedule_cmd, jobs_cmd, run_other, status_message,
}

abbrev pub is_done : Message → Bool
is_done done = true
is_done _ = false

-- The messages end with `done`, which stands nowhere else.
abbrev pub is_answer : List Message → Bool
is_answer [] = false
is_answer (m ∷ []) = is_done m
is_answer (m ∷ n ∷ ms) = not (is_done m) && is_answer (n ∷ ms)

-- There is a message, and none is `done`.
abbrev pub is_unfinished : List Message → Bool
is_unfinished [] = false
is_unfinished (m ∷ []) = not (is_done m)
is_unfinished (m ∷ n ∷ ms) = not (is_done m) && is_unfinished (n ∷ ms)

-- The flags with the one set that the work needs.
abbrev pub set_flag : Work → Running → Running
set_flag (scanning n) r = record r { scan = true }
set_flag (comparing n x y) r = record r { compare = true }
set_flag (job_scan name start) r = record r { scan = true }

abbrev pub owner_is : ℕ → Work → Bool
owner_is n (scanning m) = m == n
owner_is n (comparing m x y) = m == n
owner_is n (job_scan name start) = false

module _ (cron : Cron) (cl : Client) (a : Agent cron) where
  -- Answered at once, with no goroutine started; or the work of the client is started in the
  -- background of an idle agent, and the answer is left to it.
  abbrev pub Answered : List Message × Agent cron → Type 0
  Answered r = (is_answer r.0 ≡ true) × (r.1.flags ≡ a.flags) × (r.1.background ≡ a.background)

  abbrev pub Started : List Message × Agent cron → Type 0
  Started r =
      (w : Work) × (is_unfinished r.0 ≡ true)
      × (is_busy a.flags ≡ false)
      × (owner_is cl.number w ≡ true)
      × (r.1.flags ≡ set_flag w a.flags)
      × (r.1.background ≡ w ∷ a.background)

  pub data Response (r : List Message × Agent cron) : Type 0 where
    answered : Answered r → Response r
    started : Started r → Response r

module _ (cron : Cron) (fails : Bool) where
  after_answer :
      (s : Scheduler cron) (m : Message) (r : Result SchedError (Scheduler cron))
      → is_done m ≡ false
      → is_answer (after cron fails s m r).0 ≡ true
  unfolding after
  after_answer s m (err e) h = refl
  after_answer s m (ok s') h = rw h refl

  add_fields_answer :
      (s : Scheduler cron) (ws : List Text) → is_answer (add_fields cron fails s ws).0 ≡ true
  unfolding add_fields
  add_fields_answer s [] = refl
  add_fields_answer s (x ∷ []) = refl
  add_fields_answer s (x ∷ y ∷ []) = refl
  add_fields_answer s (x ∷ y ∷ z ∷ []) =
      after_answer s _ (add_job cron fails s (trim_space x) (trim_space y) (trim_space z)) refl
  add_fields_answer s (x ∷ y ∷ z ∷ v ∷ vs) = refl

  schedule_add_answer :
      (s : Scheduler cron) (ws : List Text) → is_answer (schedule_add cron fails s ws).0 ≡ true
  unfolding schedule_add
  schedule_add_answer s [] = refl
  schedule_add_answer s (w ∷ ws) = add_fields_answer s (split_n b'|' 3 (join (lit " ") (w ∷ ws)))

  schedule_remove_answer :
      (s : Scheduler cron) (ws : List Text) → is_answer (schedule_remove cron fails s ws).0 ≡ true
  unfolding schedule_remove
  schedule_remove_answer s [] = refl
  schedule_remove_answer s (w ∷ ws) = after_answer s _ (remove_job cron fails s w) refl

  schedule_answer :
      (s : Option (Scheduler cron)) (history : List JobRun) (args : List Text)
      → is_answer (handle_schedule_cmd cron fails s history args).0 ≡ true
  unfolding handle_schedule_cmd schedule_sub
  schedule_answer none history args = refl
  schedule_answer (some s) history [] = refl
  schedule_answer (some s) history (sub ∷ args) =
      ground (arith, schedule_add_answer s args, schedule_remove_answer s args)

module _ (bcrypt : Bcrypt) (cron : Cron) (parse : ParseTime) (c : AgentConfig) where
  start_scan-Response :
      (cl : Client) (a : Agent cron) → Response cron cl a (start_scan bcrypt cron parse c cl a)
  unfolding start_scan
  start_scan-Response cl a = elim (Bool-cases (is_busy a.flags)) [
    | inl e ↦ rw e (answered (refl, refl, refl))
    | inr e ↦ rw e (started (scanning cl.number, refl, e, ground arith, refl, refl))
  ]

  start_compare-Response :
      (cl : Client) (a : Agent cron) (args : List Text)
      → Response cron cl a (start_compare bcrypt cron parse c cl a args)
  unfolding start_compare
  start_compare-Response cl a [] = answered (refl, refl, refl)
  start_compare-Response cl a (x ∷ []) = answered (refl, refl, refl)
  start_compare-Response cl a (x ∷ y ∷ rest) = elim (Bool-cases (is_busy a.flags)) [
    | inl e ↦ rw e (answered (refl, refl, refl))
    | inr e ↦ rw e (started (comparing cl.number x y, refl, e, ground arith, refl, refl))
  ]

  read_report-Response :
      (cl : Client) (a : Agent cron) (cmd : Text) (args : List Text)
      → Response cron cl a (read_report bcrypt cron parse c a cmd args)
  unfolding read_report
  read_report-Response cl a cmd [] = answered (refl, refl, refl)
  read_report-Response cl a cmd (x ∷ xs) = answered (refl, refl, refl)

  jobs_answer : (a : Agent cron) → is_answer (jobs_cmd bcrypt cron parse c a) ≡ true
  unfolding jobs_cmd
  jobs_answer a = elim (Option-cases a.sched) [ inl e ↦ rw e refl | inr (s, e) ↦ rw e refl ]

  status_answer : (r : Running) → is_answer (status_message r ∷ done ∷ []) ≡ true
  unfolding status_message
  status_answer r = ground arith

  rest-Response :
      (env : Env) (cl : Client) (a : Agent cron) (cmd : Text) (args : List Text)
      → Response cron cl a (run_other bcrypt cron parse c env cl a cmd args)
  unfolding run_other user_cmd schedule_cmd
  rest-Response env cl a cmd args =
      let P : List Message × Agent cron → Type 0 = λ r. Response cron cl a r in
      if_both P (str_eq cmd (lit "metrics")) _ _ (answered (refl, refl, refl)) (
        if_both P (str_eq cmd (lit "schedule")) _ _
          (answered (schedule_answer cron env.sched_fails a.sched a.history args, refl, refl))
          (if_both P (str_eq cmd (lit "user")) _ _ (answered (refl, refl, refl)) (
            if_both P (str_eq cmd (lit "whoami")) _ _ (answered (refl, refl, refl)) (
              if_both P (str_eq cmd (lit "jobs")) _ _ (answered (jobs_answer a, refl, refl))
                (answered (refl, refl, refl))))))

  run_command-Response :
      (env : Env) (cl : Client) (a : Agent cron) (cmd : Text) (args : List Text)
      → Response cron cl a (run_command bcrypt cron parse c env cl a cmd args)
  unfolding run_command quick
  run_command-Response env cl a cmd args =
      let P : List Message × Agent cron → Type 0 = λ r. Response cron cl a r in
      if_both P (str_eq cmd (lit "scan")) _ _ (start_scan-Response cl a) (
        if_both P (str_eq cmd (lit "list")) _ _ (answered (refl, refl, refl)) (
          if_both P (str_eq cmd (lit "data")) _ _ (read_report-Response cl a cmd args) (
            if_both P (str_eq cmd (lit "fetch")) _ _ (read_report-Response cl a cmd args) (
              if_both P (str_eq cmd (lit "compare")) _ _ (start_compare-Response cl a args) (
                if_both P (str_eq cmd (lit "quickcompare")) _ _ (answered (refl, refl, refl)) (
                  if_both P (str_eq cmd (lit "status")) _ _
                    (answered (status_answer a.flags, refl, refl))
                    (rest-Response env cl a cmd args)))))))

  handle_parts-Response :
      (env : Env) (cl : Client) (a : Agent cron) (parts : List Text)
      → ((parts ≡ []) × (handle_parts bcrypt cron parse c env cl a parts ≡ ([], a)))
        ⊎ ((is_nil parts ≡ false)
            × Response cron cl a (handle_parts bcrypt cron parse c env cl a parts))
  unfolding handle_parts
  handle_parts-Response env cl a [] = inl (refl, refl)
  handle_parts-Response env cl a (cmd ∷ args) = inr (
    refl,
    if_both (λ r. Response cron cl a r) (not (role_allows cl.role (command_role (cmd ∷ args)))) _ _
        (answered (refl, refl, refl)) (run_command-Response env cl a cmd args),
  )

  -- A blank line is not answered and changes nothing. Every other line is answered at once, with one
  -- ---DONE--- at the end and no goroutine started; or it starts one piece of work for its client
  -- on an agent that was idle, the flag of that work is set, and no ---DONE--- is written yet.
  pub line-Response :
      (env : Env) (cl : Client) (a : Agent cron) (line : Text)
      → ((fields (trim_space line) ≡ [])
          × (handle_line bcrypt cron parse c env cl a line ≡ ([], a)))
        ⊎ ((is_nil (fields (trim_space line)) ≡ false)
            × Response cron cl a (handle_line bcrypt cron parse c env cl a line))
  unfolding handle_line
  line-Response env cl a line = handle_parts-Response env cl a (fields (trim_space line))
