-- ===== src/Scan/Pool/Sums.antt =====
-- logic.go, parallelFileCheck: what the workers leave when they have ended, in whatever order they moved.
use ship_grip_fim.Base.{
  ℕ, zero, suc, ◌+◌, Bool, true, false, ◌||◌, Option, none, some, List, [], ◌∷◌, Text, lookup,
  IsMap, elem, ◌≡◌, refl, if◌then◌else◌, get_elem?, arith, str_eq, str_eq→eq, Option-cases,
  Bool-cases, inl, inr, lookup-insert, insert-IsMap, ap, ltb, subst, some_injective, sym, ◌∙◌,
}
use ship_grip_fim.Scan.Pool.{
  Worker, idle, busy, exited, Pool, set_worker, idle_workers, start_pool, record_sum, receive,
  move_of, turn, run_pool, all_exited,
}
use ship_grip_fim.Scan.Pool.Served.{run_pool-IsServed, start-IsServed, ended_queue}

abbrev pub works_on : Text → Worker → Bool
works_on f (busy g) = str_eq g f
works_on f _ = false

abbrev pub worked_on : Text → List Worker → Bool
worked_on f [] = false
worked_on f (w ∷ ws) = works_on f w || worked_on f ws

abbrev pub or_else : Option Text → Option Text → Option Text
or_else none b = b
or_else (some a) b = some a

module _ (sum : Text → Option Text) where
  abbrev pub is_unreadable : Text → ℕ
  is_unreadable f = elim (sum f) [ none ↦ 1 | some s ↦ 0 ]

  abbrev pub unreadable_in : List Text → ℕ
  unreadable_in [] = 0
  unreadable_in (f ∷ fs) = is_unreadable f + unreadable_in fs

  abbrev pub unreadable_by : Worker → ℕ
  unreadable_by (busy f) = is_unreadable f
  unreadable_by _ = 0

  abbrev pub unreadable_workers : List Worker → ℕ
  unreadable_workers [] = 0
  unreadable_workers (w ∷ ws) = unreadable_by w + unreadable_workers ws

  -- The sum of a file, if it is one of the files and can be read.
  abbrev pub sum_in : List Text → Text → Option Text
  sum_in files f = if elem f files then sum f else none

  -- What is summed and what is still to be summed are the sums of the files.
  pub record IsSummed (files : List Text) (p : Pool) : Type 0 where
    pub summed :
        (f : Text)
        → or_else
            (lookup f p.sums)
            (if elem f p.queue || worked_on f p.workers then sum f else none)
          ≡ sum_in files f
    pub counted :
        p.unreadable + unreadable_in p.queue + unreadable_workers p.workers ≡ unreadable_in files
    pub is_map : IsMap p.sums

  set_worker_unreadable :
      (i : ℕ) (v w : Worker) (ws : List Worker)
      → get_elem? ws i ≡ some w
      → unreadable_workers (set_worker i v ws) + unreadable_by w
        ≡ unreadable_workers ws + unreadable_by v
  unfolding set_worker
  set_worker_unreadable i v w [] h = absurd (ground arith)
  set_worker_unreadable zero v w (x ∷ ws) h = ground arith
  set_worker_unreadable (suc i) v w (x ∷ ws) h = omega (arith, set_worker_unreadable i v w ws h)

-- A worker that was idle.
taken_worked_on :
    (f : Text) (i : ℕ) (v : Worker) (ws : List Worker)
    → get_elem? ws i ≡ some idle
    → worked_on f (set_worker i v ws) ≡ works_on f v || worked_on f ws
unfolding set_worker
taken_worked_on f i v [] h = absurd (ground arith)
taken_worked_on f zero v (x ∷ ws) h = ground arith
taken_worked_on f (suc i) v (x ∷ ws) h = ground (arith, taken_worked_on f i v ws)

freed_worked_on :
    (f g : Text) (i : ℕ) (ws : List Worker)
    → get_elem? ws i ≡ some (busy g)
    → worked_on f ws ≡ str_eq g f || worked_on f (set_worker i idle ws)
unfolding set_worker
freed_worked_on f g i [] h = absurd (ground arith)
freed_worked_on f g zero (x ∷ ws) h = ground arith
freed_worked_on f g (suc i) (x ∷ ws) h = ground (arith, freed_worked_on f g i ws)

module _ (sum : Text → Option Text) (files : List Text) where
  receive-IsSummed :
      (i : ℕ) (fs : List Text) (p : Pool)
      → p.queue ≡ fs
      → get_elem? p.workers i ≡ some idle
      → IsSummed sum files p
      → IsSummed sum files (receive sum i fs p)
  unfolding receive
  receive-IsSummed i [] p e h v = record {
    summed = λ f. ground (arith, v.summed f, taken_worked_on f i exited p.workers h);
    counted = omega (arith, v.counted, set_worker_unreadable sum i exited idle p.workers h);
    is_map = v.is_map;
  }
  receive-IsSummed i (g ∷ fs) p e h v =
      let k : unreadable_in sum p.queue ≡ is_unreadable sum g + unreadable_in sum fs =
        ap (unreadable_in sum) e in
      record {
        summed = λ f.
            let m : elem f p.queue ≡ str_eq g f || elem f fs = ap (elem f) e in
            ground (arith, v.summed f, m, taken_worked_on f i (busy g) p.workers h);
        counted =
            omega (arith, v.counted, k, set_worker_unreadable sum i (busy g) idle p.workers h);
        is_map = v.is_map;
      }

  -- The end of the work of worker `i` on `g`.
  module _ (i : ℕ) (g : Text) (p : Pool) (h : get_elem? p.workers i ≡ some (busy g)) where
    freed : Pool
    freed = record p { workers = set_worker i idle p.workers }

    record_sum-IsSummed :
        (r : Option Text)
        → sum g ≡ r
        → IsSummed sum files p
        → IsSummed sum files (record_sum sum g r freed)
    unfolding record_sum freed
    record_sum-IsSummed none e v = record {
      summed = λ f.
          let m = freed_worked_on f g i p.workers h in
          elim (Bool-cases (str_eq g f)) [
            | inl q ↦
                let n : sum f ≡ none = ap sum (sym (str_eq→eq g f q)) ∙ e in
                ground (arith, v.summed f, m, n)
            | inr q ↦ ground (arith, v.summed f, m)
          ];
      counted =
          let u : is_unreadable sum g ≡ 1 = ground arith in
          omega (arith, v.counted, u, set_worker_unreadable sum i idle (busy g) p.workers h);
      is_map = v.is_map;
    }
    record_sum-IsSummed (some s) e v = record {
      summed = λ f.
          let m = freed_worked_on f g i p.workers h in
          elim (Bool-cases (str_eq g f)) [
            | inl q ↦
                let n : sum f ≡ some s = ap sum (sym (str_eq→eq g f q)) ∙ e in
                ground (arith, v.summed f, m, n, lookup-insert g f s p.sums)
            | inr q ↦ ground (arith, v.summed f, m, lookup-insert g f s p.sums)
          ];
      counted =
          let u : is_unreadable sum g ≡ 0 = ground arith in
          omega (arith, v.counted, u, set_worker_unreadable sum i idle (busy g) p.workers h);
      is_map = insert-IsMap g s p.sums v.is_map;
    }

  move_of-IsSummed :
      (i : ℕ) (w : Option Worker) (p q : Pool)
      → get_elem? p.workers i ≡ w
      → move_of sum i w p ≡ some q
      → IsSummed sum files p
      → IsSummed sum files q
  unfolding move_of freed
  move_of-IsSummed i none p q e h v = absurd (ground arith)
  move_of-IsSummed i (some exited) p q e h v = absurd (ground arith)
  move_of-IsSummed i (some idle) p q e h v =
      subst (λ r. IsSummed sum files r) (some_injective h) (receive-IsSummed i p.queue p refl e v)
  move_of-IsSummed i (some (busy g)) p q e h v =
      subst (λ r. IsSummed sum files r) (some_injective h)
        (record_sum-IsSummed i g p e (sum g) refl v)

  run_pool-IsSummed :
      (is : List ℕ) (p q : Pool)
      → run_pool sum is p ≡ some q
      → IsSummed sum files p
      → IsSummed sum files q
  unfolding run_pool turn
  run_pool-IsSummed [] p q h v = subst (λ r. IsSummed sum files r) (some_injective h) v
  run_pool-IsSummed (i ∷ is) p q h v = elim (Option-cases (turn sum i p)) [
    | inl e ↦ absurd (ground arith)
    | inr (r, e) ↦
        run_pool-IsSummed is r q (rw (e, run_pool) at h)
          (move_of-IsSummed i (get_elem? p.workers i) p r refl e v)
  ]

  idle_worked_on : (f : Text) (n : ℕ) → worked_on f (idle_workers n) ≡ false
  unfolding idle_workers
  idle_worked_on f zero = refl
  idle_worked_on f (suc n) = idle_worked_on f n

  idle_unreadable : (n : ℕ) → unreadable_workers sum (idle_workers n) ≡ 0
  unfolding idle_workers
  idle_unreadable zero = refl
  idle_unreadable (suc n) = omega (arith, idle_unreadable n)

  start-IsSummed : (para_count : ℕ) → IsSummed sum files (start_pool para_count files)
  unfolding start_pool lookup
  start-IsSummed para_count =
      let n = if ltb para_count 1 then 1 else para_count in
      record {
        summed = λ f. ground (arith, idle_worked_on f n);
        counted = omega (arith, idle_unreadable n);
        is_map = tt;
      }

exited_worked_on : (f : Text) (ws : List Worker) → all_exited ws ≡ true → worked_on f ws ≡ false
exited_worked_on f [] h = refl
exited_worked_on f (exited ∷ ws) h = exited_worked_on f ws h
exited_worked_on f (idle ∷ ws) h = absurd (ground arith)
exited_worked_on f (busy g ∷ ws) h = absurd (ground arith)

exited_unreadable :
    (sum : Text → Option Text) (ws : List Worker)
    → all_exited ws ≡ true
    → unreadable_workers sum ws ≡ 0
exited_unreadable sum [] h = refl
exited_unreadable sum (exited ∷ ws) h = omega (arith, exited_unreadable sum ws h)
exited_unreadable sum (idle ∷ ws) h = absurd (ground arith)
exited_unreadable sum (busy g ∷ ws) h = absurd (ground arith)

or_else-none : (a : Option Text) → or_else a none ≡ a
or_else-none none = refl
or_else-none (some s) = refl

-- Whatever the number of workers and the order of their moves, when all have ended the map has for
-- each path its sum if it is one of the files and can be read, and nothing for any other path, no
-- path twice, and the count of unreadable files is the number of files that cannot be read.
pub pool_sums :
    (sum : Text → Option Text) (para_count : ℕ) (files : List Text) (is : List ℕ) (p : Pool)
    → run_pool sum is (start_pool para_count files) ≡ some p
    → all_exited p.workers ≡ true
    → ((f : Text) → lookup f p.sums ≡ (if elem f files then sum f else none))
      × IsMap p.sums
      × (p.unreadable ≡ unreadable_in sum files)
pool_sums sum para_count files is p h e =
    let start = start_pool para_count files in
    let v = run_pool-IsSummed sum files is start p h (start-IsSummed sum files para_count) in
    let s = run_pool-IsServed sum is start p h (start-IsServed para_count files) in
    let q = ended_queue p s e in
    (
      λ f.
          let m : elem f p.queue ≡ false = ap (elem f) q in
          sym (or_else-none (lookup f p.sums))
          ∙ ground (arith, v.summed f, m, exited_worked_on f p.workers e),
      v.is_map,
      let k : unreadable_in sum p.queue ≡ 0 = ap (unreadable_in sum) q in
          omega (arith, v.counted, k, exited_unreadable sum p.workers e),
    )
