-- ===== src/Scan/Pool/Reference.antt =====
-- logic.go, parallelFileCheck: what is printed, against a check that reads one file after the other.
use ship_grip_fim.Base.{
  ℕ, ◌+◌, true, ◌≡◌, refl, Option, none, some, List, [], Text, if◌then◌else◌, length, arith, elem,
  Map, lookup, IsMap, Option-cases, Bool-cases, inl, inr, subst, some_injective,
}
use ship_grip_fim.Compare.{Patterns}
use ship_grip_fim.Scan.{Entries, walk_files, Body, sum_file}
use ship_grip_fim.Scan.Distinct.{IsDistinct, IsProper, walk-IsDistinct}
use ship_grip_fim.Scan.Pool.{
  Pool, start_pool, run_pool, all_exited, Printed, printed, ended_check, parallel_file_check,
}
use ship_grip_fim.Scan.Pool.Ends.{moves_left, schedule_to_end}
use ship_grip_fim.Scan.Pool.Sums.{unreadable_in, pool_sums}
use ship_grip_fim.Scan.Pool.Counts.{
  readable_lines, readable_count, Holds, Holds-lines, Holds-length, In-elem,
}

abbrev pub sum_of : (Text → Text) → (Text → Body) → Text → Option Text
sum_of md5 read f = sum_file md5 (read f)

-- The reference: every file of the walk is read in its turn.
abbrev pub sequential_check : (Text → Option Text) → List Text → Printed
sequential_check sum files = record {
  lines = readable_lines sum files;
  found = length files;
  checked = length (readable_lines sum files);
  unreadable = unreadable_in sum files;
}

module _ (md5 : Text → Text) (read : Text → Body) (no_walk : Patterns) (para_count : ℕ)
    (files : List Text) where
  printed_sequential :
      (p : Pool)
      → IsDistinct files
      → Holds (sum_of md5 read) files p.sums
      → IsMap p.sums
      → p.unreadable ≡ unreadable_in (sum_of md5 read) files
      → printed files p ≡ sequential_check (sum_of md5 read) files
  unfolding printed
  printed_sequential p d h i u =
      let sum = sum_of md5 read in
      let l = Holds-lines sum files files p.sums h (λ f m. In-elem f files m) in
      let c : length p.sums ≡ length (readable_lines sum files) =
        omega (arith, Holds-length sum files p.sums d i h, readable_count sum files) in
      ground (arith, l, c, u)

  abbrev IsChecked : Printed × Map Text → Type 0
  IsChecked (out, sums) =
      (out ≡ sequential_check (sum_of md5 read) files)
      × Holds (sum_of md5 read) files sums
      × IsMap sums
      × (out.found ≡ out.checked + out.unreadable)

  ended-IsChecked :
      (schedule : List ℕ) (p : Pool)
      → IsDistinct files
      → run_pool (sum_of md5 read) schedule (start_pool para_count files) ≡ some p
      → all_exited p.workers ≡ true
      → IsChecked (printed files p, p.sums)
  ended-IsChecked schedule p d e x =
      let sum = sum_of md5 read in
      let (h, i, u) = pool_sums sum para_count files schedule p e x in
      let q = printed_sequential p d h i u in let c = readable_count sum files in (q, h, i, rw q c)

  pub check_ended :
      (schedule : List ℕ) (r : Printed × Map Text)
      → IsDistinct files
      → ended_check md5 read no_walk para_count files
          (run_pool (sum_of md5 read) schedule (start_pool para_count files))
        ≡ some r
      → IsChecked r
  unfolding ended_check
  check_ended schedule r d h =
      elim (Option-cases (run_pool (sum_of md5 read) schedule (start_pool para_count files))) [
        | inl e ↦ absurd (ground arith)
        | inr (p, e) ↦ elim (Bool-cases (all_exited p.workers)) [
          | inl x ↦
              let k : (if all_exited p.workers then some (printed files p, p.sums) else none)
                  ≡ some r =
                rw e at h in
              subst IsChecked (some_injective (rw x at k)) (ended-IsChecked schedule p d e x)
          | inr x ↦ absurd (ground arith)
        ]
      ]

  -- Some schedule ends the check.
  pub check_ends :
      (schedule : List ℕ) × (r : Printed × Map Text) × (ended_check md5 read no_walk para_count
          files
          (run_pool (sum_of md5 read) schedule (start_pool para_count files))
        ≡ some r)
  unfolding ended_check
  check_ends =
      let start = start_pool para_count files in
      let (is, p, e, x) =
        schedule_to_end (sum_of md5 read) (moves_left start) start (omega arith) in
      (is, (printed files p, p.sums), rw (e, x) refl)

-- `parallelFileCheck` on a file system in which no directory has a name twice and no name has a '/':
-- whatever the number of workers and the order in which they move, once all have ended what is
-- printed is what a loop over the collected files prints; the map has exactly the sums of the
-- collected files that can be read, no path twice; and the files found are as many as those
-- checked and those counted as unreadable.
pub check_refines :
    (md5 : Text → Text) (read : Text → Body) (no_walk : Patterns) (para_count : ℕ) (path : Text)
    (es : Entries) (schedule : List ℕ) (out : Printed) (sums : Map Text)
    → IsProper es
    → parallel_file_check md5 read no_walk para_count path es schedule ≡ some (out, sums)
    → (out ≡ sequential_check (sum_of md5 read) (walk_files no_walk path es []))
      × ((f : Text)
          → lookup f sums
            ≡ (if elem f (walk_files no_walk path es []) then sum_of md5 read f else none))
      × IsMap sums
      × (out.found ≡ out.checked + out.unreadable)
unfolding parallel_file_check
check_refines md5 read no_walk para_count path es schedule out sums proper h =
    let files = walk_files no_walk path es [] in
    check_ended md5 read no_walk para_count files schedule (out, sums)
      (walk-IsDistinct no_walk path es proper) h

-- For every directory, worker count and file system there is an order of moves in which
-- `parallelFileCheck` ends.
pub check_total :
    (md5 : Text → Text) (read : Text → Body) (no_walk : Patterns) (para_count : ℕ) (path : Text)
    (es : Entries)
    → (schedule : List ℕ) × (r : Printed × Map Text) × (parallel_file_check md5 read no_walk
          para_count path es schedule
        ≡ some r)
unfolding parallel_file_check
check_total md5 read no_walk para_count path es =
    check_ends md5 read no_walk para_count (walk_files no_walk path es [])
