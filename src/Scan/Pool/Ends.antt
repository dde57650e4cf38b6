-- ===== src/Scan/Pool/Ends.antt =====
-- logic.go, parallelFileCheck: the workers always end, after the same number of moves.
use ship_grip_fim.Base.{
  ℕ, zero, suc, ◌+◌, ◌*◌, ◌≤◌, ◌<◌, true, false, Option, none, some, List, [], ◌∷◌, Text, ◌≡◌, refl,
  ap, if◌then◌else◌, ltb, get_elem?, length, arith, ◌⊎◌, inl, inr, Bool-cases, Option-cases,
}
use ship_grip_fim.Scan.Pool.{
  Worker, idle, busy, exited, Pool, set_worker, idle_workers, start_pool, record_sum, receive,
  move_of, turn, run_pool, has_exited, all_exited,
}
use ship_grip_fim.Scan.Pool.Served.{run_pool-IsServed, start-IsServed, ended_queue}

-- The moves that a worker makes if nothing more is sent to it.
abbrev pub worker_moves : Worker → ℕ
worker_moves exited = 0
worker_moves idle = 1
worker_moves (busy f) = 2

abbrev pub workers_moves : List Worker → ℕ
workers_moves [] = 0
workers_moves (w ∷ ws) = worker_moves w + workers_moves ws

-- A file that is not sent yet costs a receive and the work on it.
abbrev pub moves_left : Pool → ℕ
moves_left p = 2 * length p.queue + workers_moves p.workers

set_worker_moves :
    (i : ℕ) (v w : Worker) (ws : List Worker)
    → get_elem? ws i ≡ some w
    → workers_moves (set_worker i v ws) + worker_moves w ≡ workers_moves ws + worker_moves v
unfolding set_worker
set_worker_moves i v w [] h = absurd (ground arith)
set_worker_moves zero v w (x ∷ ws) h = ground arith
set_worker_moves (suc i) v w (x ∷ ws) h = omega (arith, set_worker_moves i v w ws h)

record_sum_moves :
    (sum : Text → Option Text) (f : Text) (r : Option Text) (p : Pool)
    → moves_left (record_sum sum f r p) ≡ moves_left p
unfolding record_sum
record_sum_moves sum f none p = refl
record_sum_moves sum f (some s) p = refl

receive_moves :
    (sum : Text → Option Text) (i : ℕ) (fs : List Text) (p : Pool)
    → p.queue ≡ fs
    → get_elem? p.workers i ≡ some idle
    → moves_left p ≡ suc (moves_left (receive sum i fs p))
unfolding receive
receive_moves sum i [] p e h =
    let k : length p.queue ≡ 0 = ap length e in
    omega (arith, set_worker_moves i exited idle p.workers h)
receive_moves sum i (f ∷ fs) p e h =
    let k : length p.queue ≡ suc (length fs) = ap length e in
    omega (arith, set_worker_moves i (busy f) idle p.workers h)

move_of_moves :
    (sum : Text → Option Text) (i : ℕ) (w : Option Worker) (p q : Pool)
    → get_elem? p.workers i ≡ w
    → move_of sum i w p ≡ some q
    → moves_left p ≡ suc (moves_left q)
unfolding move_of
move_of_moves sum i none p q e h = absurd (ground arith)
move_of_moves sum i (some exited) p q e h = absurd (ground arith)
move_of_moves sum i (some idle) p q e h = ground (arith, receive_moves sum i p.queue p refl e)
move_of_moves sum i (some (busy f)) p q e h =
    let p' : Pool = record p { workers = set_worker i idle p.workers } in
    let k = record_sum_moves sum f (sum f) p' in
    let k' = set_worker_moves i idle (busy f) p.workers e in ground (arith, k, k')

turn_moves :
    (sum : Text → Option Text) (i : ℕ) (p q : Pool)
    → turn sum i p ≡ some q
    → moves_left p ≡ suc (moves_left q)
unfolding turn
turn_moves sum i p q h = move_of_moves sum i (get_elem? p.workers i) p q refl h

pub run_pool_moves :
    (sum : Text → Option Text) (is : List ℕ) (p q : Pool)
    → run_pool sum is p ≡ some q
    → moves_left p ≡ length is + moves_left q
unfolding run_pool
run_pool_moves sum [] p q h = ground arith
run_pool_moves sum (i ∷ is) p q h = elim (Option-cases (turn sum i p)) [
  | inl e ↦ absurd (ground arith)
  | inr (r, e) ↦
      let k : run_pool sum is r ≡ some q = rw (e, run_pool) at h in
      omega (arith, turn_moves sum i p r e, run_pool_moves sum is r q k)
]

-- A worker that has not ended.
live_worker :
    (ws : List Worker)
    → all_exited ws ≡ false
    → (i : ℕ) × (w : Worker) × (get_elem? ws i ≡ some w) × (has_exited w ≡ false)
live_worker [] h = absurd (ground arith)
live_worker (idle ∷ ws) h = (0, idle, refl, refl)
live_worker (busy f ∷ ws) h = (0, busy f, refl, refl)
live_worker (exited ∷ ws) h = let (i, w, e, l) = live_worker ws h in (suc i, w, e, l)

-- It can move.
live_move :
    (sum : Text → Option Text) (i : ℕ) (w : Worker) (p : Pool)
    → has_exited w ≡ false
    → (q : Pool) × (move_of sum i (some w) p ≡ some q)
unfolding move_of
live_move sum i idle p l = (receive sum i p.queue p, refl)
live_move sum i (busy f) p l =
    (record_sum sum f (sum f) (record p { workers = set_worker i idle p.workers }), refl)
live_move sum i exited p l = absurd (ground arith)

pub live_turn :
    (sum : Text → Option Text) (p : Pool)
    → all_exited p.workers ≡ false
    → (i : ℕ) × (q : Pool) × (turn sum i p ≡ some q)
unfolding turn
live_turn sum p h =
    let (i, w, e, l) = live_worker p.workers h in
    let (q, m) = live_move sum i w p l in (i, q, rw e m)

exited_moves : (ws : List Worker) → all_exited ws ≡ true → workers_moves ws ≡ 0
exited_moves [] h = refl
exited_moves (exited ∷ ws) h = omega (arith, exited_moves ws h)
exited_moves (idle ∷ ws) h = absurd (ground arith)
exited_moves (busy f ∷ ws) h = absurd (ground arith)

schedule_next :
    (sum : Text → Option Text) (i : ℕ) (p q : Pool)
    → turn sum i p ≡ some q
    → (is : List ℕ) × (r : Pool) × (run_pool sum is q ≡ some r) × (all_exited r.workers ≡ true)
    → (is : List ℕ) × (r : Pool) × (run_pool sum is p ≡ some r) × (all_exited r.workers ≡ true)
unfolding run_pool
schedule_next sum i p q e (is, r, h, k) = (i ∷ is, r, rw (e, run_pool) h, k)

-- As long as a worker has not ended some worker can move, so the moves can be made to the end.
pub schedule_to_end :
    (sum : Text → Option Text) (n : ℕ) (p : Pool)
    → moves_left p ≤ n
    → (is : List ℕ) × (q : Pool) × (run_pool sum is p ≡ some q) × (all_exited q.workers ≡ true)
unfolding run_pool
schedule_to_end sum zero p h = elim (Bool-cases (all_exited p.workers)) [
  | inl e ↦ ([], p, refl, e)
  | inr e ↦ let (i, q, m) = live_turn sum p e in absurd (omega (arith, turn_moves sum i p q m))
]
schedule_to_end sum (suc n) p h = elim (Bool-cases (all_exited p.workers)) [
  | inl e ↦ ([], p, refl, e)
  | inr e ↦
      let (i, q, m) = live_turn sum p e in
      schedule_next sum i p q m (schedule_to_end sum n q (omega (arith, turn_moves sum i p q m)))
]

idle_workers_moves : (n : ℕ) → workers_moves (idle_workers n) ≡ n
unfolding idle_workers
idle_workers_moves zero = refl
idle_workers_moves (suc n) = omega (arith, idle_workers_moves n)

-- The moves of the whole check.
abbrev pub total_moves : ℕ → List Text → ℕ
total_moves para_count files = 2 * length files + (if ltb para_count 1 then 1 else para_count)

start_moves :
    (para_count : ℕ) (files : List Text)
    → moves_left (start_pool para_count files) ≡ total_moves para_count files
unfolding start_pool
start_moves para_count files =
    omega (arith, idle_workers_moves (if ltb para_count 1 then 1 else para_count))

-- Whatever moves the workers have made since `parallelFileCheck` started them: either all have ended,
-- after exactly two moves for each file and one for each worker; or fewer moves were made and some
-- worker can make the next (they never block each other). And the moves made so far can be
-- continued until all workers have ended.
pub workers_end :
    (sum : Text → Option Text) (para_count : ℕ) (files : List Text) (is : List ℕ) (p : Pool)
    → run_pool sum is (start_pool para_count files) ≡ some p
    → (((all_exited p.workers ≡ true) × (length is ≡ total_moves para_count files))
        ⊎ ((length is < total_moves para_count files)
            × ((i : ℕ) × (q : Pool) × (turn sum i p ≡ some q))))
      × ((js : List ℕ) × (q : Pool) × (run_pool sum js p ≡ some q) × (all_exited q.workers ≡ true))
workers_end sum para_count files is p h =
    let start = start_pool para_count files in
    let k = run_pool_moves sum is start p h in
    let s = start_moves para_count files in
    let v = run_pool-IsServed sum is start p h (start-IsServed para_count files) in
    (
      elim (Bool-cases (all_exited p.workers)) [
        | inl e ↦
            let q : length p.queue ≡ 0 = ap length (ended_queue p v e) in
            inl (e, omega (arith, exited_moves p.workers e))
        | inr e ↦
            let (i, q, m) = live_turn sum p e in
            inr (omega (arith, turn_moves sum i p q m), (i, q, m))
      ],
      schedule_to_end sum (moves_left p) p (omega arith),
    )
