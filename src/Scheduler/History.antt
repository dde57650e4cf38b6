-- ===== src/Scheduler/History.antt =====
-- scheduler.go and agent_server.go: the flags of running operations, the runs of a job and their
-- history.
use ship_grip_fim.Base.{
  ℕ, suc, ◌-◌, ◌≤◌, Bool, true, false, ◌≡◌, refl, ◌||◌, ◌&&◌, ◌==◌, Option, none, some, List, [],
  ◌∷◌, ◌++◌, Text, str_eq, ltb, if◌then◌else◌, length, drop, length-append, length-drop, arith, ap,
  zero, min, Bool-cases, inl, inr, ltb→lt, not, str_eq_refl,
}

pub data RunStatus : Type 0 where
  running complete skipped : RunStatus
  error : Text → RunStatus

-- A zero end time is `none`.
pub record JobRun : Type 0 where
  pub name : Text
  pub start_time : ℕ
  pub end_time : Option ℕ
  pub status : RunStatus

abbrev pub max_history : ℕ
max_history = 100

-- The flags of `agentState`.
pub record Running : Type 0 where
  pub scan : Bool
  pub compare : Bool

unfoldable pub is_busy : Running → Bool
is_busy r = r.scan || r.compare

unfoldable pub record_run : Text → ℕ → Option ℕ → RunStatus → List JobRun → List JobRun
record_run name start end status history =
    let longer =
      history ++ record { name = name; start_time = start; end_time = end; status = status } ∷ [] in
    if ltb max_history (length longer) then drop (length longer - max_history) longer else longer

abbrev is_running : RunStatus → Bool
is_running running = true
is_running _ = false

unfoldable pub is_run_of : Text → ℕ → JobRun → Bool
is_run_of name start r = str_eq r.name name && (r.start_time == start) && is_running r.status

-- The last entry that fits is rewritten; `none` if none fits.
rewrite_last : (JobRun → Bool) → (JobRun → JobRun) → List JobRun → Option (List JobRun)
rewrite_last fits f [] = none
rewrite_last fits f (r ∷ rs) =
    let later = rewrite_last fits f rs in
    elim later [ some rs' ↦ some (r ∷ rs') | none ↦ if fits r then some (f r ∷ rs) else none ]

or_same : List JobRun → Option (List JobRun) → List JobRun
or_same rs none = rs
or_same rs (some rs') = rs'

unfoldable pub update_last_run : Text → ℕ → ℕ → RunStatus → List JobRun → List JobRun
unfolding rewrite_last or_same is_run_of
update_last_run name start end status history = or_same history (
    rewrite_last (is_run_of name start) (λ r. record r { end_time = some end; status = status })
      history)

-- The first half of `runJob`: the flag test and the entry of the history.
unfoldable pub begin_job : Text → ℕ → Running × List JobRun → Bool × (Running × List JobRun)
begin_job name now (flags, history) =
    if is_busy flags
    then (false, (flags, record_run name now (some now) skipped history))
    else (true, (record flags { scan = true }, record_run name now none running history))

-- Its second half, after `callScan` returned or panicked.
unfoldable pub end_job : Text → ℕ → ℕ → RunStatus → Running × List JobRun → Running × List JobRun
end_job name start end status (flags, history) =
    (record flags { scan = false }, update_last_run name start end status history)

take_first : ℕ → List JobRun → List JobRun
take_first zero rs = []
take_first (suc n) [] = []
take_first (suc n) (r ∷ rs) = r ∷ take_first n rs

take_first-drop : (n : ℕ) (rs : List JobRun) → rs ≡ take_first n rs ++ drop n rs
unfolding take_first
take_first-drop zero rs = refl
take_first-drop (suc n) [] = refl
take_first-drop (suc n) (r ∷ rs) = ap (λ t. r ∷ t) (take_first-drop n rs)

-- A new run is put behind the history, of which at most the newest entries are kept, as many as
-- make 100 runs with the new one; none is lost while there are fewer.
pub record_run_keeps :
    (name : Text) (start : ℕ) (end : Option ℕ) (status : RunStatus) (history : List JobRun)
    → let run : JobRun = record {
      name = name;
      start_time = start;
      end_time = end;
      status = status;
    } in
      (older : List JobRun) × (history ++ run ∷ []
        ≡ older ++ record_run name start end status history)
      × (length (record_run name start end status history) ≡ min max_history (suc (length history)))
unfolding record_run
record_run_keeps name start end status history =
    let run : JobRun = record {
      name = name;
      start_time = start;
      end_time = end;
      status = status;
    } in
    let longer = history ++ run ∷ [] in
    let size = length-append history (run ∷ []) in
    elim (Bool-cases (ltb max_history (length longer))) [
      | inl e ↦ (
        take_first (length longer - max_history) longer,
        rw e (take_first-drop (length longer - max_history) longer),
        rw e (
            omega (
              arith,
              size,
              length-drop (length longer - max_history) longer,
              ltb→lt max_history (length longer) e,
            )),
      )
      | inr e ↦ ([], rw e refl, rw e (ground (arith, size)))
    ]

rewrite_last-append :
    (fits : JobRun → Bool) (f : JobRun → JobRun) (rs : List JobRun) (r : JobRun)
    → fits r ≡ true
    → rewrite_last fits f (rs ++ r ∷ []) ≡ some (rs ++ f r ∷ [])
unfolding rewrite_last
rewrite_last-append fits f [] r h = ground arith
rewrite_last-append fits f (x ∷ rs) r h = rw (rewrite_last-append fits f rs r h) refl

drop-append_one :
    (n : ℕ) (rs : List JobRun) (r : JobRun)
    → n ≤ length rs
    → drop n (rs ++ r ∷ []) ≡ drop n rs ++ r ∷ []
drop-append_one zero rs r h = refl
drop-append_one (suc n) [] r h = absurd (omega arith)
drop-append_one (suc n) (x ∷ rs) r h = drop-append_one n rs r (omega arith)

-- The entries of a history that stay when one more comes.
abbrev pub recent : List JobRun → List JobRun
recent history =
    if ltb max_history (suc (length history))
    then drop (suc (length history) - max_history) history
    else history

record_run-append :
    (name : Text) (start : ℕ) (end : Option ℕ) (status : RunStatus) (history : List JobRun)
    → record_run name start end status history
      ≡ recent history
        ++ record { name = name; start_time = start; end_time = end; status = status } ∷ []
unfolding record_run
record_run-append name start end status history =
    let run : JobRun = record {
      name = name;
      start_time = start;
      end_time = end;
      status = status;
    } in
    let size : length (history ++ run ∷ []) ≡ suc (length history) =
      omega (arith, length-append history (run ∷ [])) in
    elim (Bool-cases (ltb max_history (suc (length history)))) [
      | inl e ↦
          rw (size, e)
            (drop-append_one (suc (length history) - max_history) history run (omega arith))
      | inr e ↦ rw (size, e) refl
    ]

update-append :
    (name : Text) (start end : ℕ) (status : RunStatus) (rs : List JobRun)
    → update_last_run name start end status
        (rs ++ record { name = name; start_time = start; end_time = none; status = running } ∷ [])
      ≡ rs ++ record { name = name; start_time = start; end_time = some end; status = status } ∷ []
unfolding update_last_run
update-append name start end status rs =
    rw
      (rewrite_last-append (is_run_of name start)
        (λ r. record r { end_time = some end; status = status }) rs
        (record { name = name; start_time = start; end_time = none; status = running })
        (ground (arith, str_eq_refl name)))
      refl

-- A job that finds an operation running changes no flag and leaves a skipped run behind. Any other
-- sets the scan flag, and when it ends with no other run recorded in between, the flag is reset,
-- and the history is the recent one with the finished run behind it.
pub job_cycle :
    (name : Text) (start end : ℕ) (status : RunStatus) (flags : Running) (history : List JobRun)
    → let (started, state) = begin_job name start (flags, history) in
      (started ≡ not (is_busy flags))
      × (started ≡ false
          → state ≡ (
            flags,
            recent history
                ++ record {
                  name = name;
                  start_time = start;
                  end_time = some start;
                  status = skipped;
                }
                  ∷ [],
          ))
      × (started ≡ true
          → (state.0.scan ≡ true)
            × (end_job name start end status state ≡ (
              flags,
              recent history
                  ++ record {
                    name = name;
                    start_time = start;
                    end_time = some end;
                    status = status;
                  }
                    ∷ [],
            )))
unfolding begin_job end_job is_busy
job_cycle name start end status flags history = elim (Bool-cases (is_busy flags)) [
  | inl e ↦ rw e (
    refl,
    λ h. ground (arith, record_run-append name start (some start) skipped history),
    λ h. cc,
  )
  | inr e ↦ rw e (
    refl,
    λ h. cc,
    λ h. (
      refl,
      ground (
        arith,
        e,
        record_run-append name start none running history,
        update-append name start end status (recent history),
      ),
    ),
  )
]
