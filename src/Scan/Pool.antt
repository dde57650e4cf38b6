-- ===== src/Scan/Pool.antt =====
-- logic.go, parallelFileCheck: the workers that take files from a channel and sum them. A schedule
-- is the list of the workers that make a move, one after the other; a worker's move is its next
-- receive, or the end of its work on a file, or its end when the channel is closed and empty. The
-- locks make each of these one step.
pub mod Served
pub mod Ends
pub mod Sums
pub mod Counts
pub mod Reference
use ship_grip_fim.Base.{
  ℕ, zero, suc, Bool, true, false, Option, none, some, List, [], ◌∷◌, ◌++◌, Text, Map, lookup,
  insert, if◌then◌else◌, ltb, get_elem?, length,
}
use ship_grip_fim.Compare.{Patterns, matches_any}
use ship_grip_fim.Scan.{Entries, walk_files, Body, sum_file}

pub data Worker : Type 0 where
  idle : Worker
  busy : Text → Worker
  exited : Worker

-- `queue` holds the files that are not sent yet: the channel has no buffer.
pub record Pool : Type 0 where
  pub queue : List Text
  pub workers : List Worker
  pub sums : Map Text
  pub unreadable : ℕ

unfoldable pub set_worker : ℕ → Worker → List Worker → List Worker
set_worker i w [] = []
set_worker zero w (v ∷ vs) = w ∷ vs
set_worker (suc i) w (v ∷ vs) = v ∷ set_worker i w vs

unfoldable pub idle_workers : ℕ → List Worker
idle_workers zero = []
idle_workers (suc n) = idle ∷ idle_workers n

-- At least one worker.
unfoldable pub start_pool : ℕ → List Text → Pool
unfolding idle_workers
start_pool para_count files = record {
  queue = files;
  workers = idle_workers (if ltb para_count 1 then 1 else para_count);
  sums = [];
  unreadable = 0;
}

-- The file system while the files are read: the result of `sumFile` for each path.
module _ (sum : Text → Option Text) where
  unfoldable pub record_sum : Text → Option Text → Pool → Pool
  record_sum file none p = record p { unreadable = suc p.unreadable }
  record_sum file (some s) p = record p { sums = insert file s p.sums }

  unfoldable pub receive : ℕ → List Text → Pool → Pool
  unfolding set_worker
  receive i [] p = record p { workers = set_worker i exited p.workers }
  receive i (f ∷ fs) p = record p { queue = fs; workers = set_worker i (busy f) p.workers }

  -- The move of worker `i`; `none` if there is no such worker or it has ended.
  unfoldable pub move_of : ℕ → Option Worker → Pool → Option Pool
  unfolding record_sum receive set_worker
  move_of i none p = none
  move_of i (some exited) p = none
  move_of i (some idle) p = some (receive i p.queue p)
  move_of i (some (busy f)) p =
      some (record_sum f (sum f) (record p { workers = set_worker i idle p.workers }))

  unfoldable pub turn : ℕ → Pool → Option Pool
  unfolding move_of
  turn i p = move_of i (get_elem? p.workers i) p

  unfoldable pub run_pool : List ℕ → Pool → Option Pool
  run_pool [] p = some p
  run_pool (i ∷ is) p = elim (turn i p) [ none ↦ none | some q ↦ run_pool is q ]

abbrev pub has_exited : Worker → Bool
has_exited exited = true
has_exited _ = false

-- `wg.Wait` returns when every worker has ended.
abbrev pub all_exited : List Worker → Bool
all_exited [] = true
all_exited (w ∷ ws) = if has_exited w then all_exited ws else false

-- What is printed: a line for each file that has a sum, in the order of the walk, and the counts.
pub record Printed : Type 0 where
  pub lines : List (Text × Text)
  pub found : ℕ
  pub checked : ℕ
  pub unreadable : ℕ

unfoldable pub sum_lines : Map Text → List Text → List (Text × Text)
sum_lines sums [] = []
sum_lines sums (f ∷ fs) =
    let rest = sum_lines sums fs in elim (lookup f sums) [ none ↦ rest | some s ↦ (s, f) ∷ rest ]

unfoldable pub printed : List Text → Pool → Printed
unfolding sum_lines
printed files p = record {
  lines = sum_lines p.sums files;
  found = length files;
  checked = length p.sums;
  unreadable = p.unreadable;
}

-- `parallelFileCheck` under a schedule: the walk, the pool, and what is printed when the workers have
-- ended. `none` if the schedule is none that the workers can follow to their end.
module _ (md5 : Text → Text) (read : Text → Body) (no_walk : Patterns) (para_count : ℕ) where
  unfoldable pub ended_check : List Text → Option Pool → Option (Printed × Map Text)
  unfolding printed
  ended_check files none = none
  ended_check files (some p) = if all_exited p.workers then some (printed files p, p.sums) else none

  unfoldable pub parallel_file_check : Text → Entries → List ℕ → Option (Printed × Map Text)
  unfolding ended_check run_pool start_pool
  parallel_file_check path es schedule =
      let files = walk_files no_walk path es [] in
      ended_check files
        (run_pool (λ f. sum_file md5 (read f)) schedule (start_pool para_count files))
