-- ===== src/Tests/Scans.antt =====
-- A directory with two files, one of which cannot be read, and an entry that is left out.
use ship_grip_fim.Base.{
  ℕ, ◌+◌, ◌<◌, true, false, ◌≡◌, refl, Option, none, some, List, [], ◌∷◌, Text, lit, str_eq,
  if◌then◌else◌, elem, lookup, insert, IsMap, In, ◌⊎◌, ◌↔◌,
}
use ship_grip_fim.Compare.{Patterns, matches_any}
use ship_grip_fim.Scan.{
  directory, regular, other, Entries, end, entry, Body, cannot_open, bytes, walk_files, child_path,
  sum_file,
}
use ship_grip_fim.Scan.Distinct.{IsProper}
use ship_grip_fim.Scan.Found.{IsBelow, walk_exact}
use ship_grip_fim.Scan.Pool.Counts.{In-elem}
use ship_grip_fim.Scan.Pool.{
  idle, busy, Pool, Printed, start_pool, run_pool, turn, all_exited, parallel_file_check,
}
use ship_grip_fim.Scan.Pool.Ends.{total_moves, workers_end}
use ship_grip_fim.Scan.Pool.Reference.{sum_of, sequential_check, check_refines}

abbrev toy_md5 : Text → Text
toy_md5 s = b'#' ∷ s

abbrev toy_read : Text → Body
toy_read f = if str_eq f (lit "/d/a") then bytes (lit "x") else cannot_open

abbrev small_dir : Entries
small_dir = entry (lit "a") regular (
    entry (lit "l") other (
      entry (lit "s") (directory (entry (lit "b") regular end))
        (entry (lit "t") (directory (entry (lit "c") regular end)) end)))

abbrev no_t : Patterns
no_t = some (λ p. str_eq p (lit "/d/t")) ∷ none ∷ []

abbrev two_turns : List ℕ
two_turns = 0 ∷ 1 ∷ 1 ∷ 1 ∷ 0 ∷ 0 ∷ []

abbrev checked_out : Printed
checked_out = record { lines = (lit "#x", lit "/d/a") ∷ []; found = 2; checked = 1; unreadable = 1 }

checked_run :
    parallel_file_check toy_md5 toy_read no_t 2 (lit "/d") small_dir two_turns
    ≡ some (checked_out, (lit "/d/a", lit "#x") ∷ [])
unfolding parallel_file_check walk_files matches_any child_path lit str_eq insert lookup sum_file
    turn
checked_run = refl

not_listed : (n : Text) (ns : List Text) → elem n ns ≡ false → In n ns → ⊥
not_listed n ns e m = absurd (cc (e, In-elem n ns m))

small_dir-IsProper : IsProper small_dir
unfolding lit str_eq
small_dir-IsProper = (
  refl,
  (λ m. not_listed (lit "a") (lit "l" ∷ lit "s" ∷ lit "t" ∷ []) refl m),
  tt,
  (
    refl,
    (λ m. not_listed (lit "l") (lit "s" ∷ lit "t" ∷ []) refl m),
    tt,
    (
      refl,
      (λ m. not_listed (lit "s") (lit "t" ∷ []) refl m),
      (refl, (λ m. elim m [ ]), tt, tt),
      (refl, (λ m. elim m [ ]), (refl, (λ m. elim m [ ]), tt, tt), tt),
    ),
  ),
)

check_refines_example :
    (checked_out
      ≡ sequential_check (sum_of toy_md5 toy_read) (walk_files no_t (lit "/d") small_dir []))
    × ((f : Text)
        → lookup f ((lit "/d/a", lit "#x") ∷ []) ≡ (
            if elem f (walk_files no_t (lit "/d") small_dir [])
            then sum_of toy_md5 toy_read f
            else none))
    × IsMap ((lit "/d/a", lit "#x") ∷ [])
    × (checked_out.found ≡ checked_out.checked + checked_out.unreadable)
check_refines_example =
    check_refines toy_md5 toy_read no_t 2 (lit "/d") small_dir two_turns checked_out
      ((lit "/d/a", lit "#x") ∷ []) small_dir-IsProper checked_run

abbrev toy_sum : Text → Option Text
toy_sum = sum_of toy_md5 toy_read

abbrev both_files : List Text
both_files = lit "/d/a" ∷ lit "/d/s/b" ∷ []

-- After the first worker has received a file.
abbrev under_way : Pool
under_way = record {
  queue = lit "/d/s/b" ∷ [];
  workers = busy (lit "/d/a") ∷ idle ∷ [];
  sums = [];
  unreadable = 0;
}

first_turn : run_pool toy_sum (0 ∷ []) (start_pool 2 both_files) ≡ some under_way
unfolding run_pool turn start_pool
first_turn = refl

workers_end_example :
    (((all_exited under_way.workers ≡ true) × (1 ≡ total_moves 2 both_files))
      ⊎ ((1 < total_moves 2 both_files)
          × ((i : ℕ) × (q : Pool) × (turn toy_sum i under_way ≡ some q))))
    × ((js : List ℕ) × (q : Pool) × (run_pool toy_sum js under_way ≡ some q)
        × (all_exited q.workers ≡ true))
workers_end_example = workers_end toy_sum 2 both_files (0 ∷ []) under_way first_turn

walk_exact_example :
    In (lit "/d/s/b") (walk_files no_t (lit "/d") small_dir [])
    ↔ IsBelow no_t (lit "/d/s/b") (lit "/d") (directory small_dir)
walk_exact_example = walk_exact no_t (lit "/d/s/b") (lit "/d") small_dir
