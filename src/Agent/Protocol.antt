-- ===== src/Agent/Protocol.antt =====
-- agent_server.go: the ---DONE--- lines that a client gets for its commands.
use ship_grip_fim.Base.{
  ℕ, zero, suc, ◌+◌, true, false, ◌≡◌, refl, ap, ◌&&◌, ◌==◌, not, some, List, [], ◌∷◌, ◌++◌, map,
  Text, arith, Bool-cases, inl, inr, Option-cases, if◌then◌else◌, is_nil, fields, trim_space,
}
use ship_grip_fim.Auth.Users.{Bcrypt}
use ship_grip_fim.QuickCompare.{ParseTime}
use ship_grip_fim.Scheduler.Jobs.{Cron}
use ship_grip_fim.Scheduler.History.{begin_job}
use ship_grip_fim.Agent.{Work, scanning, comparing, job_scan, AgentConfig, Agent, Message}
use ship_grip_fim.Agent.Command.{Client, handle_line}
use ship_grip_fim.Agent.Response.{
  Response, answered, started, line-Response, is_done, is_answer, is_unfinished, owner_is,
}
use ship_grip_fim.Agent.Steps.{
  Event, line, timer, ends, Ending, step, run, ended, take_work, job_starts, entered, work_ends,
  scan_ends, compare_ends, job_ends,
}

-- The ---DONE--- lines that a client was sent.
abbrev pub done_count : ℕ → List (ℕ × Message) → ℕ
done_count n [] = 0
done_count n ((m, msg) ∷ out) = (if (m == n) && is_done msg then 1 else 0) + done_count n out

-- The goroutines that work for a client.
abbrev pub pending : ℕ → List Work → ℕ
pending n [] = 0
pending n (w ∷ ws) = (if owner_is n w then 1 else 0) + pending n ws

-- The commands that a client sent: its lines that are not blank.
abbrev pub command_count : ℕ → List Event → ℕ
command_count n [] = 0
command_count n (line env cl s ∷ vs) =
    (if (cl.number == n) && not (is_nil (fields (trim_space s))) then 1 else 0) + command_count n vs
command_count n (v ∷ vs) = command_count n vs

done_count-append :
    (n : ℕ) (xs ys : List (ℕ × Message))
    → done_count n (xs ++ ys) ≡ done_count n xs + done_count n ys
done_count-append n [] ys = omega arith
done_count-append n ((m, msg) ∷ xs) ys = omega (arith, done_count-append n xs ys)

other_client :
    (n k : ℕ) (ms : List Message) → (k == n) ≡ false → done_count n (map (λ m. (k, m)) ms) ≡ 0
other_client n k [] h = refl
other_client n k (m ∷ ms) h = rw h (omega (arith, other_client n k ms h))

answer_count :
    (n k : ℕ) (ms : List Message)
    → (k == n) ≡ true
    → is_answer ms ≡ true
    → done_count n (map (λ m. (k, m)) ms) ≡ 1
answer_count n k [] e h = absurd (ground arith)
answer_count n k (m ∷ []) e h = ground arith
answer_count n k (m ∷ p ∷ ms) e h = ground (arith, answer_count n k (p ∷ ms) e)

unfinished_count :
    (n k : ℕ) (ms : List Message)
    → is_unfinished ms ≡ true
    → done_count n (map (λ m. (k, m)) ms) ≡ 0
unfinished_count n k [] h = refl
unfinished_count n k (m ∷ []) h = ground arith
unfinished_count n k (m ∷ p ∷ ms) h = ground (arith, unfinished_count n k (p ∷ ms))

owner_unique : (n k : ℕ) (w : Work) → owner_is k w ≡ true → owner_is n w ≡ (k == n)
owner_unique n k (scanning m) h = ground arith
owner_unique n k (comparing m x y) h = ground arith
owner_unique n k (job_scan name start) h = absurd (ground arith)

module _ (cron : Cron) (n : ℕ) where
  Response-count :
      (cl : Client) (a : Agent cron) (r : List Message × Agent cron)
      → Response cron cl a r
      → done_count n (map (λ m. (cl.number, m)) r.0) + pending n r.1.background
        ≡ (if cl.number == n then 1 else 0) + pending n a.background
  Response-count cl a r (answered (h, f, b)) = elim (Bool-cases (cl.number == n)) [
    | inl e ↦ rw (e, b) (ap (λ k. k + pending n a.background) (answer_count n cl.number r.0 e h))
    | inr e ↦ rw (e, b) (ap (λ k. k + pending n a.background) (other_client n cl.number r.0 e))
  ]
  Response-count cl a r (started (w, u, i, o, f, b)) =
      rw (b, owner_unique n cl.number w o) (omega (arith, unfinished_count n cl.number r.0 u))

  take_count :
      (i : ℕ) (ws vs : List Work) (w : Work)
      → take_work i ws ≡ some (w, vs)
      → pending n ws ≡ (if owner_is n w then 1 else 0) + pending n vs
  unfolding take_work
  take_count i [] vs w h = absurd (ground arith)
  take_count zero (x ∷ ws) vs w h = ground arith
  take_count (suc i) (x ∷ ws) vs w h = elim (Option-cases (take_work i ws)) [
    | inl e ↦ absurd (ground (arith, e))
    | inr ((v, us), e) ↦ ground (arith, e, take_count i ws us v e)
  ]

  entered_count :
      (name : Text) (now : ℕ) (r : _) (a : Agent cron)
      → pending n (entered name now r a).background ≡ pending n a.background
  unfolding entered
  entered_count name now (true, s) a = omega arith
  entered_count name now (false, s) a = refl

  work_ends_count :
      (c : AgentConfig) (w : Work) (e : Ending) (a : Agent cron)
      → (done_count n (work_ends cron c w e a).0 ≡ (if owner_is n w then 1 else 0))
        × ((work_ends cron c w e a).1.background ≡ a.background)
  unfolding work_ends scan_ends compare_ends job_ends
  work_ends_count c (scanning m) e a = ground arith
  work_ends_count c (comparing m x y) e a = ground arith
  work_ends_count c (job_scan name start) e a = (refl, ground arith)

module _ (bcrypt : Bcrypt) (cron : Cron) (parse : ParseTime) (c : AgentConfig) (n : ℕ) where
  ended_count :
      (i : ℕ) (e : Ending) (a : Agent cron)
      → done_count n (ended bcrypt cron parse c e a (take_work i a.background)).0
          + pending n (ended bcrypt cron parse c e a (take_work i a.background)).1.background
        ≡ pending n a.background
  unfolding ended
  ended_count i e a = elim (Option-cases (take_work i a.background)) [
    | inl h ↦ rw h (omega arith)
    | inr ((w, ws), h) ↦
        let k = work_ends_count cron n c w e (record a { background = ws }) in
        rw h (omega (arith, k.0, ap (pending n) k.1, take_count cron n i a.background ws w h))
  ]

  step_count :
      (v : Event) (a : Agent cron)
      → done_count n (step bcrypt cron parse c v a).0
          + pending n (step bcrypt cron parse c v a).1.background
        ≡ command_count n (v ∷ []) + pending n a.background
  unfolding step job_starts
  step_count (line env cl s) a = elim (line-Response bcrypt cron parse c env cl a s) [
    | inl b ↦ rw (b.0, ap (λ r. r.0) b.1, ap (λ r. r.1.background) b.1) (ground arith)
    | inr r ↦ elim (Bool-cases (cl.number == n)) [
      | inl e ↦ ground (
        arith,
        e,
        r.0,
        Response-count cron n cl a (handle_line bcrypt cron parse c env cl a s) r.1,
      )
      | inr e ↦ ground (
        arith,
        e,
        r.0,
        Response-count cron n cl a (handle_line bcrypt cron parse c env cl a s) r.1,
      )
    ]
  ]
  step_count (timer name now) a =
      omega (arith, entered_count cron n name now (begin_job name now (a.flags, a.history)) a)
  step_count (ends i e) a = omega (arith, ended_count i e a)

  command_count-cons :
      (v : Event) (vs : List Event)
      → command_count n (v ∷ vs) ≡ command_count n (v ∷ []) + command_count n vs
  command_count-cons (line env cl s) vs = omega arith
  command_count-cons (timer name now) vs = omega arith
  command_count-cons (ends i e) vs = omega arith

  -- In every run of the agent, with any number of clients and jobs, a client is sent one ---DONE---
  -- for each command that it sent, up to those that still work in the background when the run ends;
  -- what worked for it already when the run began counts as well.
  pub one_done_each :
      (vs : List Event) (a : Agent cron)
      → let (out, a') = run bcrypt cron parse c vs a in
        done_count n out + pending n a'.background ≡ command_count n vs + pending n a.background
  unfolding run
  one_done_each [] a = refl
  one_done_each (v ∷ vs) a =
      let a' = (step bcrypt cron parse c v a).1 in
      omega (
        arith,
        step_count v a,
        one_done_each vs a',
        command_count-cons v vs,
        done_count-append n (step bcrypt cron parse c v a).0 (run bcrypt cron parse c vs a').0,
      )
