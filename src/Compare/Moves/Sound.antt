-- ===== src/Compare/Moves/Sound.antt =====
-- logic.go: what every reported move is.
use ship_grip_fim.Base.{
  true, ◌≡◌, ◌≢◌, ◌∙◌, none, some, List, [], ◌∷◌, arith, Text, str_eq_refl, Map, lookup, remove,
  IsMap, has_key, lookup-remove, All, All-append,
}
use ship_grip_fim.Compare.Moves.Index.{IsIndexed, start-IsIndexed, pair_one-IsIndexed}
use ship_grip_fim.Compare.Moves.Steps.{
  Paired, skipped, moved, IsQueue, pair_one-Paired, IsQueue-tail, start, missing_queue,
  missing-IsQueue,
}
use ship_grip_fim.Compare.{
  Move, CompareReport, Pairing, empty_file_md5, value_at, take_candidate, pair_one, pair_all,
  pair_moves,
}

-- A move that the pairing may report, given the report before it and the maps after it.
pub record IsMove (before : CompareReport) (after : CompareReport) (m : Move) : Type 0 where
  pub was_missing : lookup m.old_path before.missing_files ≡ some m.hash
  pub was_new : lookup m.new_path before.new_files ≡ some m.hash
  pub not_empty : m.hash ≢ empty_file_md5
  pub missing_no_more : lookup m.old_path after.missing_files ≡ none
  pub new_no_more : lookup m.new_path after.new_files ≡ none

record IsSound (before : CompareReport) (p : Pairing) : Type 0 where
  missing_le :
      (j v : Text)
      → lookup j p.report.missing_files ≡ some v
      → lookup j before.missing_files ≡ some v
  new_le : (j v : Text) → lookup j p.report.new_files ≡ some v → lookup j before.new_files ≡ some v
  moves : All (IsMove before p.report) p.report.moved_files

absent_after_remove : (k j : Text) (m : Map Text) → lookup j m ≡ none → lookup j (remove k m) ≡ none
absent_after_remove k j m h = ground (arith, lookup-remove k j m)

still_moves :
    (before : CompareReport) (p : Pairing) (k v k2 : Text) (rest : List Text) (ms : List Move)
    → All (IsMove before p.report) ms
    → All (IsMove before (take_candidate k v (k2 ∷ rest) p).report) ms
unfolding take_candidate
still_moves before p k v k2 rest [] h = tt
still_moves before p k v k2 rest (m ∷ ms) h = (
  record {
    was_missing = h.0.was_missing;
    was_new = h.0.was_new;
    not_empty = h.0.not_empty;
    missing_no_more = absent_after_remove k m.old_path p.report.missing_files h.0.missing_no_more;
    new_no_more = absent_after_remove k2 m.new_path p.report.new_files h.0.new_no_more;
  },
  still_moves before p k v k2 rest ms h.1,
)

value_at_known : (k : Text) (m : Map Text) → has_key k m ≡ true → lookup k m ≡ some (value_at k m)
unfolding has_key value_at
value_at_known k m h = ground arith

Paired-IsSound :
    {k : Text} {p q : Pairing} (before : CompareReport)
    → Paired k p q
    → IsIndexed p
    → has_key k p.report.missing_files ≡ true
    → IsSound before p
    → IsSound before q
unfolding take_candidate
Paired-IsSound before (skipped why) ix h s = s
Paired-IsSound {k} {p} before (moved v k2 rest e n c) ix h s = record {
  missing_le =
      λ j w found. s.missing_le j w (ground (arith, lookup-remove k j p.report.missing_files));
  new_le = λ j w found. s.new_le j w (ground (arith, lookup-remove k2 j p.report.new_files));
  moves =
      All-append (IsMove before (take_candidate k v (k2 ∷ rest) p).report) p.report.moved_files
        (record { old_path = k; new_path = k2; hash = v } ∷ [])
        (still_moves before p k v k2 rest p.report.moved_files s.moves)
        (
          record {
            was_missing = s.missing_le k v (value_at_known k p.report.missing_files h ∙ cc);
            was_new = s.new_le k2 v (ix.sound v k2 (rw c (ground (arith, str_eq_refl k2))));
            not_empty = n;
            missing_no_more = rw (lookup-remove, str_eq_refl);
            new_no_more = rw (lookup-remove, str_eq_refl);
          },
          tt,
        );
}

pair_all-IsSound :
    (before : CompareReport) (ks : List Text) (p : Pairing)
    → IsQueue ks p
    → IsIndexed p
    → IsSound before p
    → IsSound before (pair_all ks p)
unfolding pair_all
pair_all-IsSound before [] p i ix s = s
pair_all-IsSound before (k ∷ ks) p i ix s =
    let step = pair_one-Paired k p in
    pair_all-IsSound before ks (pair_one k p) (IsQueue-tail ks step i) (pair_one-IsIndexed k p ix)
      (Paired-IsSound before step ix (i.known k (ground (arith, str_eq_refl k))) s)

-- Every reported move joins a missing file and a new file that had the same hash, not that of the
-- empty file, and neither is reported as missing or new any more.
pub pair_moves_sound :
    (cr : CompareReport)
    → IsMap cr.new_files
    → IsMap cr.missing_files
    → cr.moved_files ≡ []
    → All (IsMove cr (pair_moves cr)) (pair_moves cr).moved_files
unfolding pair_moves start missing_queue
pair_moves_sound cr mn mm e =
    (pair_all-IsSound cr (missing_queue cr) (start cr) (missing-IsQueue cr mm)
      (start-IsIndexed cr mn mm)
      (record { missing_le = λ j v h. h; new_le = λ j v h. h; moves = rw e tt })).moves
