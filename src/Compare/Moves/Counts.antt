-- ===== src/Compare/Moves/Counts.antt =====
-- logic.go: the pairing of moves keeps the number of files.
use ship_grip_fim.Base.{
  ◌+◌, true, ◌≡◌, refl, ◌∙◌, List, [], ◌∷◌, arith, Text, str_eq_refl, IsMap, has_key, length,
  length-append, length-remove,
}
use ship_grip_fim.Compare.Moves.Index.{IsIndexed, start-IsIndexed, pair_one-IsIndexed}
use ship_grip_fim.Compare.Moves.Steps.{
  Paired, skipped, moved, IsQueue, pair_one-Paired, IsQueue-tail, start, missing_queue,
  missing-IsQueue,
}
use ship_grip_fim.Compare.{CompareReport, Pairing, take_candidate, pair_one, pair_all, pair_moves}

Paired-counts :
    {k : Text} {p q : Pairing}
    → Paired k p q
    → IsIndexed p
    → has_key k p.report.missing_files ≡ true
    → (length q.report.missing_files + length q.report.moved_files
        ≡ length p.report.missing_files + length p.report.moved_files)
      × (length q.report.new_files + length q.report.moved_files
          ≡ length p.report.new_files + length p.report.moved_files)
unfolding take_candidate
Paired-counts (skipped why) ix h = (refl, refl)
Paired-counts {k} {p} (moved v k2 rest e n c) ix h =
    let found = ix.sound v k2 (rw c (ground (arith, str_eq_refl k2))) in
    let more =
      length-append p.report.moved_files (record { old_path = k; new_path = k2; hash = v } ∷ []) in
    (
      omega (arith, more, length-remove k p.report.missing_files ix.missing_map h),
      omega (
        arith,
        more,
        length-remove k2 p.report.new_files ix.new-IsMap (unfold has_key in rw found),
      ),
    )

pair_all_counts :
    (ks : List Text) (p : Pairing)
    → IsQueue ks p
    → IsIndexed p
    → (length (pair_all ks p).report.missing_files + length (pair_all ks p).report.moved_files
        ≡ length p.report.missing_files + length p.report.moved_files)
      × (length (pair_all ks p).report.new_files + length (pair_all ks p).report.moved_files
          ≡ length p.report.new_files + length p.report.moved_files)
unfolding pair_all
pair_all_counts [] p i ix = (refl, refl)
pair_all_counts (k ∷ ks) p i ix =
    let step = pair_one-Paired k p in
    let (m, n) =
      pair_all_counts ks (pair_one k p) (IsQueue-tail ks step i) (pair_one-IsIndexed k p ix) in
    let (m', n') = Paired-counts step ix (i.known k (ground (arith, str_eq_refl k))) in
    (m ∙ m', n ∙ n')

-- Each move accounts for one missing and one new file: the pairing is one to one.
pub pair_moves_counts :
    (cr : CompareReport)
    → IsMap cr.new_files
    → IsMap cr.missing_files
    → let after = pair_moves cr in
      (length after.missing_files + length after.moved_files
        ≡ length cr.missing_files + length cr.moved_files)
      × (length after.new_files + length after.moved_files
          ≡ length cr.new_files + length cr.moved_files)
unfolding pair_moves start missing_queue
pair_moves_counts cr mn mm =
    pair_all_counts (missing_queue cr) (start cr) (missing-IsQueue cr mm) (start-IsIndexed cr mn mm)
