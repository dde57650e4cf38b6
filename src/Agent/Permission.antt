-- ===== src/Agent/Permission.antt =====
-- agent_server.go: what a client with the ro role can change.
use ship_grip_fim.Base.{
  Bool, true, false, ◌≡◌, refl, sym, ap, ◌∙◌, subst, ◌⊎◌, inl, inr, not, Option, none, some, List,
  [], ◌∷◌, Text, arith, Bool-cases, if◌then◌else◌, str_eq, str_eq→eq, lit, fields, trim_space,
}
use ship_grip_fim.Auth.Roles.{role_ro, role_admin, role_rank, command_role, role_allows}
use ship_grip_fim.Auth.Roles.Matrix.{Writes, scan, add, remove, ro_refused}
use ship_grip_fim.Auth.Users.{Bcrypt}
use ship_grip_fim.Auth.Command.Errors.{user_command_as_denied}
use ship_grip_fim.QuickCompare.{ParseTime}
use ship_grip_fim.Scheduler.Jobs.{Cron, Scheduler}
use ship_grip_fim.Scheduler.History.{JobRun}
use ship_grip_fim.Agent.{AgentConfig, Agent, Env, Message}
use ship_grip_fim.Agent.Schedule.{handle_schedule_cmd, schedule_sub}
use ship_grip_fim.Agent.Command.{
  Client, handle_line, handle_parts, run_command, run_other, start_compare, read_report, quick,
  user_cmd, schedule_cmd,
}

-- The schedule, the scan flag and the users file are as before, but for the client's own password.
pub record IsHarmless (cron : Cron) (cl : Client) (a : Agent cron) (parts : List Text)
    (r : List Message × Agent cron) : Type 0 where
  pub same_sched : r.1.sched ≡ a.sched
  pub same_scan : r.1.flags.scan ≡ a.flags.scan
  pub same_users :
      (r.1.users ≡ a.users)
      ⊎ ((rest : List Text) × (parts ≡ lit "user" ∷ lit "passwd" ∷ cl.user ∷ rest))

-- What holds of both branches, each under its condition, holds of the conditional.
if_split {ℓ κ} :
    {A : Type ℓ} (P : A → Type κ) (b : Bool) (x y : A)
    → (b ≡ true → P x)
    → (b ≡ false → P y)
    → P (if b then x else y)
if_split P true x y p q = p refl
if_split P false x y p q = q refl

ro_writes_nothing :
    (parts : List Text) → role_allows role_ro (command_role parts) ≡ true → Writes parts → ⊥
ro_writes_nothing parts h w = absurd (cc (h, (ro_refused parts).1 (inl w)))

module _ (cron : Cron) (fails : Bool) where
  schedule_sub-ro :
      (s : Scheduler cron) (history : List JobRun) (args : List Text)
      → role_allows role_ro (command_role (lit "schedule" ∷ args)) ≡ true
      → (schedule_sub cron fails s history args).1 ≡ s
  unfolding schedule_sub
  schedule_sub-ro s history [] h = refl
  schedule_sub-ro s history (sub ∷ args) h = elim (Bool-cases (str_eq sub (lit "add"))) [
    | inl e ↦ absurd (
        ro_writes_nothing (lit "schedule" ∷ sub ∷ args) h (
          subst (λ t. Writes (lit "schedule" ∷ t ∷ args)) (sym (str_eq→eq sub (lit "add") e))
            (add args)))
    | inr na ↦ elim (Bool-cases (str_eq sub (lit "remove"))) [
      | inl e ↦ absurd (
          ro_writes_nothing (lit "schedule" ∷ sub ∷ args) h (
            subst (λ t. Writes (lit "schedule" ∷ t ∷ args)) (sym (str_eq→eq sub (lit "remove") e))
              (remove args)))
      | inr nr ↦ ground (arith, na, nr)
    ]
  ]

  schedule_cmd-ro :
      (s : Option (Scheduler cron)) (history : List JobRun) (args : List Text)
      → role_allows role_ro (command_role (lit "schedule" ∷ args)) ≡ true
      → (handle_schedule_cmd cron fails s history args).1 ≡ s
  unfolding handle_schedule_cmd
  schedule_cmd-ro none history args h = refl
  schedule_cmd-ro (some s) history args h = ap some (schedule_sub-ro s history args h)

ro_is_not_admin : role_allows role_ro role_admin ≡ false
unfolding role_allows role_rank lit str_eq
ro_is_not_admin = refl

module _ (bcrypt : Bcrypt) (cron : Cron) (parse : ParseTime) (c : AgentConfig) (env : Env)
    (cl : Client) (ro : cl.role ≡ role_ro) (a : Agent cron) where
  abbrev Harmless : List Text → List Message × Agent cron → Type 0
  Harmless parts r = IsHarmless cron cl a parts r

  Harmless-same : (parts : List Text) (out : List Message) → Harmless parts (out, a)
  Harmless-same parts out = record { same_sched = refl; same_scan = refl; same_users = inl refl }

  read_report-IsHarmless :
      (parts : List Text) (cmd : Text) (args : List Text)
      → Harmless parts (read_report bcrypt cron parse c a cmd args)
  unfolding read_report
  read_report-IsHarmless parts cmd [] = record {
    same_sched = refl;
    same_scan = refl;
    same_users = inl refl;
  }
  read_report-IsHarmless parts cmd (x ∷ xs) = record {
    same_sched = refl;
    same_scan = refl;
    same_users = inl refl;
  }

  start_compare-IsHarmless :
      (parts args : List Text) → Harmless parts (start_compare bcrypt cron parse c cl a args)
  unfolding start_compare
  start_compare-IsHarmless parts [] = record {
    same_sched = refl;
    same_scan = refl;
    same_users = inl refl;
  }
  start_compare-IsHarmless parts (x ∷ []) = record {
    same_sched = refl;
    same_scan = refl;
    same_users = inl refl;
  }
  start_compare-IsHarmless parts (x ∷ y ∷ rest) = record {
    same_sched = ground arith;
    same_scan = ground arith;
    same_users = inl (ground arith);
  }

  quick-IsHarmless : (parts : List Text) → Harmless parts (quick bcrypt cron parse c env a)
  unfolding quick
  quick-IsHarmless parts = record { same_sched = refl; same_scan = refl; same_users = inl refl }

  user_cmd-IsHarmless :
      (args : List Text) → Harmless (lit "user" ∷ args) (user_cmd bcrypt cron parse c env cl a args)
  unfolding user_cmd
  user_cmd-IsHarmless args = record {
    same_sched = refl;
    same_scan = refl;
    same_users =
        elim (user_command_as_denied bcrypt env.users_fail env.salt c.users_db args cl.user cl.role
          a.users (ap (λ r. role_allows r role_admin) ro ∙ ro_is_not_admin)) [
            | inl e ↦ inl (ap (λ r. r.1) e)
            | inr p ↦ inr (p.0, ap (λ t. lit "user" ∷ t) p.1)
          ];
  }

  schedule_cmd-IsHarmless :
      (parts args : List Text)
      → role_allows role_ro (command_role (lit "schedule" ∷ args)) ≡ true
      → Harmless parts (schedule_cmd bcrypt cron parse c env a args)
  unfolding schedule_cmd
  schedule_cmd-IsHarmless parts args h = record {
    same_sched = schedule_cmd-ro cron env.sched_fails a.sched a.history args h;
    same_scan = refl;
    same_users = inl refl;
  }

  run_other-IsHarmless :
      (cmd : Text) (args : List Text)
      → role_allows role_ro (command_role (cmd ∷ args)) ≡ true
      → Harmless (cmd ∷ args) (run_other bcrypt cron parse c env cl a cmd args)
  unfolding run_other
  run_other-IsHarmless cmd args h =
      let P : List Message × Agent cron → Type 0 = λ r. Harmless (cmd ∷ args) r in
      if_split P (str_eq cmd (lit "metrics")) _ _ (λ e. Harmless-same (cmd ∷ args) _)
        (λ e0.
          if_split P (str_eq cmd (lit "schedule")) _ _
            (λ e. schedule_cmd-IsHarmless (cmd ∷ args) args (
              subst (λ t. role_allows role_ro (command_role (t ∷ args)) ≡ true)
                (str_eq→eq cmd (lit "schedule") e) h))
            (λ e1.
              if_split P (str_eq cmd (lit "user")) _ _
                (λ e.
                  subst (λ t. Harmless (t ∷ args) (user_cmd bcrypt cron parse c env cl a args))
                    (sym (str_eq→eq cmd (lit "user") e)) (user_cmd-IsHarmless args))
                (λ e2.
                  if_split P (str_eq cmd (lit "whoami")) _ _ (λ e. Harmless-same (cmd ∷ args) _)
                    (λ e3.
                      if_split P (str_eq cmd (lit "jobs")) _ _ (λ e. Harmless-same (cmd ∷ args) _)
                        (λ e4. Harmless-same (cmd ∷ args) _)))))

  run_command-IsHarmless :
      (cmd : Text) (args : List Text)
      → role_allows role_ro (command_role (cmd ∷ args)) ≡ true
      → Harmless (cmd ∷ args) (run_command bcrypt cron parse c env cl a cmd args)
  unfolding run_command
  run_command-IsHarmless cmd args h =
      let P : List Message × Agent cron → Type 0 = λ r. Harmless (cmd ∷ args) r in
      if_split P (str_eq cmd (lit "scan")) _ _
        (λ e. absurd (
          ro_writes_nothing (cmd ∷ args) h
            (subst (λ t. Writes (t ∷ args)) (sym (str_eq→eq cmd (lit "scan") e)) (scan args))))
        (λ e0.
          if_split P (str_eq cmd (lit "list")) _ _ (λ e. Harmless-same (cmd ∷ args) _)
            (λ e1.
              if_split P (str_eq cmd (lit "data")) _ _
                (λ e. read_report-IsHarmless (cmd ∷ args) cmd args)
                (λ e2.
                  if_split P (str_eq cmd (lit "fetch")) _ _
                    (λ e. read_report-IsHarmless (cmd ∷ args) cmd args)
                    (λ e3.
                      if_split P (str_eq cmd (lit "compare")) _ _
                        (λ e. start_compare-IsHarmless (cmd ∷ args) args)
                        (λ e4.
                          if_split P (str_eq cmd (lit "quickcompare")) _ _
                            (λ e. quick-IsHarmless (cmd ∷ args))
                            (λ e5.
                              if_split P (str_eq cmd (lit "status")) _ _
                                (λ e. Harmless-same (cmd ∷ args) _)
                                (λ e6. run_other-IsHarmless cmd args h)))))))

  handle_parts-IsHarmless :
      (parts : List Text) → Harmless parts (handle_parts bcrypt cron parse c env cl a parts)
  unfolding handle_parts
  handle_parts-IsHarmless [] = Harmless-same [] []
  handle_parts-IsHarmless (cmd ∷ args) =
      if_split (λ r. Harmless (cmd ∷ args) r)
        (not (role_allows cl.role (command_role (cmd ∷ args)))) _ _
        (λ e. Harmless-same (cmd ∷ args) _)
        (λ e.
          run_command-IsHarmless cmd args
            (ground (arith, e, ap (λ r. role_allows r (command_role (cmd ∷ args))) ro)))

  -- No line of a client with the ro role starts a scan, changes the schedule, or changes the users
  -- file, unless it is the command to change the client's own password.
  pub ro_client-IsHarmless :
      (line : Text)
      → IsHarmless cron cl a
          (fields (trim_space line))
          (handle_line bcrypt cron parse c env cl a line)
  unfolding handle_line
  ro_client-IsHarmless line = handle_parts-IsHarmless (fields (trim_space line))
