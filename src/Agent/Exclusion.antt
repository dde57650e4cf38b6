-- ===== src/Agent/Exclusion.antt =====
-- agent_server.go: of the scans and compares that run in the background, there is one at a time.
use ship_grip_fim.Base.{
  ℕ, zero, suc, Bool, true, false, ◌≡◌, refl, sym, subst, ◌∙◌, not, none, some, List, [], ◌∷◌, Text,
  arith, Bool-cases, inl, inr, Option-cases, if◌then◌else◌,
}
use ship_grip_fim.Auth.Users.{Bcrypt}
use ship_grip_fim.QuickCompare.{ParseTime}
use ship_grip_fim.Scheduler.Jobs.{Cron}
use ship_grip_fim.Scheduler.History.{
  Running, begin_job, end_job, is_busy, record_run, running, skipped, JobRun,
}
use ship_grip_fim.Agent.{Work, scanning, comparing, job_scan, AgentConfig, Agent, Message}
use ship_grip_fim.Agent.Command.{Client}
use ship_grip_fim.Agent.Response.{Response, answered, started, line-Response}
use ship_grip_fim.Agent.Steps.{
  Event, line, timer, ends, Ending, step, run, ended, take_work, job_starts, entered, work_ends,
  scan_ends, compare_ends, job_ends,
}

abbrev pub is_scan : Work → Bool
is_scan (scanning n) = true
is_scan (comparing n id1 id2) = false
is_scan (job_scan name start) = true

-- At most one goroutine works, and the flags say which.
abbrev pub Fits : Running → List Work → Type 0
Fits r [] = (r.scan ≡ false) × (r.compare ≡ false)
Fits r (w ∷ []) = (r.scan ≡ is_scan w) × (r.compare ≡ not (is_scan w))
Fits r (w ∷ v ∷ ws) = ⊥

abbrev pub IsExclusive : {cron : Cron} → Agent cron → Type 0
IsExclusive a = Fits a.flags a.background

idle_background : (r : Running) (ws : List Work) → Fits r ws → is_busy r ≡ false → ws ≡ []
unfolding is_busy
idle_background r [] h b = refl
idle_background r (scanning n ∷ []) h b = absurd (ground arith)
idle_background r (comparing n x y ∷ []) h b = absurd (ground arith)
idle_background r (job_scan n x ∷ []) h b = absurd (ground arith)
idle_background r (w ∷ v ∷ ws) h b = absurd h

idle_compare : (r : Running) → is_busy r ≡ false → r.compare ≡ false
unfolding is_busy
idle_compare r h = ground arith

idle_scan : (r : Running) → is_busy r ≡ false → r.scan ≡ false
unfolding is_busy
idle_scan r h = ground arith

Response-IsExclusive :
    (cron : Cron) (cl : Client) (a : Agent cron) (r : List Message × Agent cron)
    → IsExclusive a
    → Response cron cl a r
    → IsExclusive r.1
Response-IsExclusive cron cl a r h (answered s) = rw (s.1, s.2) h
Response-IsExclusive cron cl a r h (started (scanning n, u, b, o, f, g)) =
    rw (f, g, idle_background a.flags a.background h b) (refl, idle_compare a.flags b)
Response-IsExclusive cron cl a r h (started (comparing n x y, u, b, o, f, g)) =
    rw (f, g, idle_background a.flags a.background h b) (idle_scan a.flags b, refl)
Response-IsExclusive cron cl a r h (started (job_scan n x, u, b, o, f, g)) =
    absurd (ground (arith, o))

begin_busy :
    (name : Text) (now : ℕ) (flags : Running) (history : List JobRun)
    → is_busy flags ≡ true
    → begin_job name now (flags, history)
      ≡ (false, (flags, record_run name now (some now) skipped history))
unfolding begin_job
begin_busy name now flags history e = rw e refl

begin_idle :
    (name : Text) (now : ℕ) (flags : Running) (history : List JobRun)
    → is_busy flags ≡ false
    → begin_job name now (flags, history)
      ≡ (true, (record flags { scan = true }, record_run name now none running history))
unfolding begin_job
begin_idle name now flags history e = rw e refl

job_starts-IsExclusive :
    (cron : Cron) (name : Text) (now : ℕ) (a : Agent cron)
    → IsExclusive a
    → IsExclusive (job_starts name now a)
unfolding job_starts entered
job_starts-IsExclusive cron name now a h = elim (Bool-cases (is_busy a.flags)) [
  | inl e ↦
      subst (λ b. IsExclusive (entered name now b a))
        (sym (begin_busy name now a.flags a.history e)) h
  | inr e ↦
      subst (λ b. IsExclusive (entered name now b a))
        (sym (begin_idle name now a.flags a.history e))
        (rw (idle_background a.flags a.background h e) (refl, idle_compare a.flags e))
]

take_only :
    (i : ℕ) (r : Running) (ws vs : List Work) (w : Work)
    → Fits r ws
    → take_work i ws ≡ some (w, vs)
    → (ws ≡ w ∷ []) × (vs ≡ [])
unfolding take_work
take_only i r [] vs w h e = absurd (ground arith)
take_only zero r (x ∷ []) vs w h e = ground arith
take_only (suc i) r (x ∷ []) vs w h e = absurd (ground arith)
take_only i r (x ∷ y ∷ ws) vs w h e = absurd h

module _ (cron : Cron) (c : AgentConfig) where
  work_ends_flags :
      (w : Work) (e : Ending) (a : Agent cron)
      → ((work_ends cron c w e a).1.background ≡ a.background)
        × ((work_ends cron c w e a).1.flags.scan ≡ (if is_scan w then false else a.flags.scan))
        × ((work_ends cron c w e a).1.flags.compare
            ≡ (if is_scan w then a.flags.compare else false))
  unfolding work_ends scan_ends compare_ends job_ends end_job
  work_ends_flags (scanning n) e a = ground arith
  work_ends_flags (comparing n x y) e a = ground arith
  work_ends_flags (job_scan n x) e a = (ground arith, refl, refl)

  Fits-after :
      (r r' : Running) (w : Work)
      → Fits r (w ∷ [])
      → r'.scan ≡ (if is_scan w then false else r.scan)
      → r'.compare ≡ (if is_scan w then r.compare else false)
      → Fits r' []
  Fits-after r r' (scanning n) h p q = (p, ground (arith, h.1, q))
  Fits-after r r' (comparing n x y) h p q = (ground (arith, h.0, p), q)
  Fits-after r r' (job_scan n x) h p q = (p, ground (arith, h.1, q))

module _ (bcrypt : Bcrypt) (cron : Cron) (parse : ParseTime) (c : AgentConfig) where
  ended-IsExclusive :
      (i : ℕ) (e : Ending) (a : Agent cron)
      → IsExclusive a
      → IsExclusive (ended bcrypt cron parse c e a (take_work i a.background)).1
  unfolding ended
  ended-IsExclusive i e a h = elim (Option-cases (take_work i a.background)) [
    | inl n ↦ rw n h
    | inr ((w, vs), t) ↦
        let (only, empty) = take_only i a.flags a.background vs w h t in
        let k = work_ends_flags cron c w e (record a { background = vs }) in
        let r = work_ends cron c w e (record a { background = vs }) in
        let f =
          Fits-after cron c a.flags r.1.flags w (subst (λ b. Fits a.flags b) only h) k.1 k.2 in
        rw t (subst (λ b. Fits r.1.flags b) (sym (k.0 ∙ empty)) f)
  ]

  -- Whatever happens to an agent with at most one scan or compare in the background and flags that
  -- say which, it stays such an agent: a second scan or compare is never started, for a client or by
  -- the scheduler, and each end resets the flag of its own work.
  pub step-IsExclusive :
      (v : Event) (a : Agent cron) → IsExclusive a → IsExclusive (step bcrypt cron parse c v a).1
  unfolding step
  step-IsExclusive (line env cl s) a h = elim (line-Response bcrypt cron parse c env cl a s) [
    | inl b ↦ subst (λ r. IsExclusive r.1) (sym b.1) h
    | inr r ↦ Response-IsExclusive cron cl a _ h r.1
  ]
  step-IsExclusive (timer name now) a h = job_starts-IsExclusive cron name now a h
  step-IsExclusive (ends i e) a h = ended-IsExclusive i e a h

  run-IsExclusive :
      (vs : List Event) (a : Agent cron)
      → IsExclusive a
      → IsExclusive (run bcrypt cron parse c vs a).1
  unfolding run
  run-IsExclusive [] a h = h
  run-IsExclusive (v ∷ vs) a h =
      run-IsExclusive vs (step bcrypt cron parse c v a).1 (step-IsExclusive v a h)
