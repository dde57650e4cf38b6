-- ===== src/Scan/Pool/Served.antt =====
-- logic.go, parallelFileCheck: the queue is only closed to a worker when it is empty.
use ship_grip_fim.Base.{
  ℕ, zero, suc, true, false, Option, none, some, List, [], ◌∷◌, Text, ◌≡◌, refl, ap, ltb, get_elem?,
  arith, inl, inr, Option-cases, is_nil, any, not, ◌||◌, ◌∙◌, subst, some_injective,
}
use ship_grip_fim.Scan.Pool.{
  Worker, idle, busy, exited, Pool, set_worker, idle_workers, start_pool, record_sum, receive,
  move_of, turn, run_pool, has_exited, all_exited,
}

nil_of_is_nil : (fs : List Text) → is_nil fs ≡ true → fs ≡ []
nil_of_is_nil [] h = refl
nil_of_is_nil (f ∷ fs) h = absurd (ground arith)

-- No worker ends before every file is sent, and there is a worker.
pub record IsServed (p : Pool) : Type 0 where
  pub sent : is_nil p.queue || not (any has_exited p.workers) ≡ true
  pub manned : is_nil p.workers ≡ false

set_worker_exits :
    (i : ℕ) (v w : Worker) (ws : List Worker)
    → get_elem? ws i ≡ some w
    → has_exited v ≡ false
    → any has_exited (set_worker i v ws) || has_exited w ≡ any has_exited ws
unfolding set_worker
set_worker_exits i v w [] h k = absurd (ground arith)
set_worker_exits zero v w (x ∷ ws) h k = ground arith
set_worker_exits (suc i) v w (x ∷ ws) h k = ground (arith, set_worker_exits i v w ws)

set_worker_manned : (i : ℕ) (v : Worker) (ws : List Worker) → is_nil (set_worker i v ws) ≡ is_nil ws
unfolding set_worker
set_worker_manned i v [] = refl
set_worker_manned zero v (w ∷ ws) = refl
set_worker_manned (suc i) v (w ∷ ws) = refl

record_sum-IsServed :
    (sum : Text → Option Text) (f : Text) (r : Option Text) (p : Pool)
    → IsServed p
    → IsServed (record_sum sum f r p)
unfolding record_sum
record_sum-IsServed sum f none p v = record { sent = v.sent; manned = v.manned }
record_sum-IsServed sum f (some s) p v = record { sent = v.sent; manned = v.manned }

receive-IsServed :
    (sum : Text → Option Text) (i : ℕ) (fs : List Text) (p : Pool)
    → p.queue ≡ fs
    → get_elem? p.workers i ≡ some idle
    → IsServed p
    → IsServed (receive sum i fs p)
unfolding receive
receive-IsServed sum i [] p e h v = record {
  sent = rw e refl;
  manned = set_worker_manned i exited p.workers ∙ v.manned;
}
receive-IsServed sum i (f ∷ fs) p e h v =
    let k : is_nil p.queue ≡ false = ap is_nil e in
    let x = set_worker_exits i (busy f) idle p.workers h refl in
    record {
      sent = ground (arith, v.sent, x);
      manned = set_worker_manned i (busy f) p.workers ∙ v.manned;
    }

move_of-IsServed :
    (sum : Text → Option Text) (i : ℕ) (w : Option Worker) (p q : Pool)
    → get_elem? p.workers i ≡ w
    → move_of sum i w p ≡ some q
    → IsServed p
    → IsServed q
unfolding move_of
move_of-IsServed sum i none p q e h v = absurd (ground arith)
move_of-IsServed sum i (some exited) p q e h v = absurd (ground arith)
move_of-IsServed sum i (some idle) p q e h v =
    subst (λ r. IsServed r) (some_injective h) (receive-IsServed sum i p.queue p refl e v)
move_of-IsServed sum i (some (busy f)) p q e h v =
    let p' : Pool = record p { workers = set_worker i idle p.workers } in
    let x = set_worker_exits i idle (busy f) p.workers e refl in
    let v' : IsServed p' = record {
      sent = ground (arith, v.sent, x);
      manned = set_worker_manned i idle p.workers ∙ v.manned;
    } in
    subst (λ r. IsServed r) (some_injective h) (record_sum-IsServed sum f (sum f) p' v')

pub run_pool-IsServed :
    (sum : Text → Option Text) (is : List ℕ) (p q : Pool)
    → run_pool sum is p ≡ some q
    → IsServed p
    → IsServed q
unfolding run_pool turn
run_pool-IsServed sum [] p q h v = subst (λ r. IsServed r) (some_injective h) v
run_pool-IsServed sum (i ∷ is) p q h v = elim (Option-cases (turn sum i p)) [
  | inl e ↦ absurd (ground arith)
  | inr (r, e) ↦
      run_pool-IsServed sum is r q (rw (e, run_pool) at h)
        (move_of-IsServed sum i (get_elem? p.workers i) p r refl e v)
]

idle_workers_exits : (n : ℕ) → any has_exited (idle_workers n) ≡ false
unfolding idle_workers
idle_workers_exits zero = refl
idle_workers_exits (suc n) = idle_workers_exits n

pub start-IsServed : (para_count : ℕ) (files : List Text) → IsServed (start_pool para_count files)
unfolding start_pool idle_workers
start-IsServed zero files = record { sent = ground arith; manned = refl }
start-IsServed (suc n) files =
    let h : ltb (suc n) 1 ≡ false = ground arith in
    record { sent = rw h (ground (arith, idle_workers_exits n)); manned = rw h refl }

exited_any :
    (ws : List Worker) → is_nil ws ≡ false → all_exited ws ≡ true → any has_exited ws ≡ true
exited_any [] h k = absurd (ground arith)
exited_any (exited ∷ ws) h k = refl
exited_any (idle ∷ ws) h k = absurd (ground arith)
exited_any (busy f ∷ ws) h k = absurd (ground arith)

-- When all workers have ended, every file was sent.
pub ended_queue : (p : Pool) → IsServed p → all_exited p.workers ≡ true → p.queue ≡ []
ended_queue p v h = nil_of_is_nil p.queue (ground (arith, v.sent, exited_any p.workers v.manned h))
