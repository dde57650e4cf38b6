-- ===== src/Agent/Schedule.antt =====
-- agent_server.go: the "schedule ..." sub-commands.
use ship_grip_fim.Base.{
  Bool, Option, none, some, List, [], ◌∷◌, Text, lit, str_eq, if◌then◌else◌, join, split_n,
  trim_space, Result, ok, err,
}
use ship_grip_fim.Scheduler.Jobs.{Cron, Scheduler, SchedError, add_job, remove_job}
use ship_grip_fim.Scheduler.History.{JobRun}
use ship_grip_fim.Agent.{
  Message, done, usage, no_scheduler, job_list, job_history, job_scheduled, job_removed,
  schedule_error, unknown_schedule,
}

module _ (cron : Cron) (fails : Bool) where
  unfoldable pub after :
      Scheduler cron → Message → Result SchedError (Scheduler cron) → List Message × Scheduler cron
  after s msg (err e) = (schedule_error e ∷ done ∷ [], s)
  after s msg (ok s') = (msg ∷ done ∷ [], s')

  unfoldable pub add_fields : Scheduler cron → List Text → List Message × Scheduler cron
  unfolding after
  add_fields s (name ∷ schedule ∷ command ∷ []) =
      let n = trim_space name in
      let expr = trim_space schedule in
      let cmd = trim_space command in
      after s (job_scheduled n expr cmd) (add_job cron fails s n expr cmd)
  add_fields s _ = (usage (lit "schedule add") ∷ done ∷ [], s)

  -- The words after "schedule add".
  unfoldable pub schedule_add : Scheduler cron → List Text → List Message × Scheduler cron
  unfolding add_fields
  schedule_add s [] = (usage (lit "schedule add") ∷ done ∷ [], s)
  schedule_add s (w ∷ ws) = add_fields s (split_n b'|' 3 (join (lit " ") (w ∷ ws)))

  unfoldable pub schedule_remove : Scheduler cron → List Text → List Message × Scheduler cron
  unfolding after
  schedule_remove s [] = (usage (lit "schedule remove") ∷ done ∷ [], s)
  schedule_remove s (name ∷ ws) = after s (job_removed name) (remove_job cron fails s name)

  unfoldable pub schedule_sub :
      Scheduler cron → List JobRun → List Text → List Message × Scheduler cron
  unfolding schedule_add schedule_remove
  schedule_sub s history [] = (usage (lit "schedule") ∷ done ∷ [], s)
  schedule_sub s history (sub ∷ args) =
      if str_eq sub (lit "list")
      then (job_list s.jobs ∷ done ∷ [], s)
      else if str_eq sub (lit "history")
      then (job_history history ∷ done ∷ [], s)
      else if str_eq sub (lit "add")
      then schedule_add s args
      else if str_eq sub (lit "remove")
      then schedule_remove s args
      else (unknown_schedule sub ∷ done ∷ [], s)

  unfoldable pub handle_schedule_cmd :
      Option (Scheduler cron) → List JobRun → List Text → List Message × Option (Scheduler cron)
  unfolding schedule_sub
  handle_schedule_cmd none history args = (no_scheduler ∷ done ∷ [], none)
  handle_schedule_cmd (some s) history args =
      let (out, s') = schedule_sub s history args in (out, some s')
