-- ===== src/Compare/Moves/Complete.antt =====
-- logic.go: the pairing of moves overlooks no pair.
use ship_grip_fim.Base.{
  true, ◌≡◌, ◌≢◌, ◌∙◌, inl, inr, some, List, [], ◌∷◌, arith, Text, str_eq, str_eq_refl, str_eq→eq,
  Map, lookup, IsMap, has_key, lookup-remove, elem, Bool-cases,
}
use ship_grip_fim.Compare.Moves.Index.{IsIndexed, start-IsIndexed, pair_one-IsIndexed}
use ship_grip_fim.Compare.Moves.Steps.{
  Paired, skipped, moved, pair_one-Paired, pair_all_shrinks, start, missing_queue,
  elem-missing_queue,
}
use ship_grip_fim.Compare.{
  CompareReport, Pairing, empty_file_md5, value_at, take_candidate, pair_one, pair_all, pair_moves,
}

-- After its turn, a path that is still missing with a hash that is not the empty file's has no
-- partner among the new files.
Paired-settles :
    {k : Text} {p q : Pairing} (v j : Text)
    → Paired k p q
    → IsIndexed p
    → v ≢ empty_file_md5
    → lookup k q.report.missing_files ≡ some v
    → lookup j q.report.new_files ≡ some v
    → ⊥
unfolding take_candidate value_at
Paired-settles {k} {p} v j (skipped (inl e)) ix n hm hn = n (ground arith)
Paired-settles {k} {p} v j (skipped (inr e)) ix n hm hn = ground (arith, ix.complete v j hn)
Paired-settles {k} {p} v j (moved w k2 rest e ne c) ix n hm hn =
    ground (arith, lookup-remove k k p.report.missing_files, str_eq_refl k)

pair_all_complete :
    (ks : List Text) (p : Pairing) (k j v : Text)
    → IsIndexed p
    → elem k ks ≡ true
    → v ≢ empty_file_md5
    → lookup k (pair_all ks p).report.missing_files ≡ some v
    → lookup j (pair_all ks p).report.new_files ≡ some v
    → ⊥
unfolding pair_all
pair_all_complete [] p k j v ix h n hm hn = cc
pair_all_complete (i ∷ ks) p k j v ix h n hm hn = elim (Bool-cases (str_eq i k)) [
  | inl e ↦
      let q = pair_one i p in
      Paired-settles v j (pair_one-Paired i p) ix n
        (rw (str_eq→eq i k e) (rw (str_eq→eq i k e) at ((pair_all_shrinks ks q k v).1 hm)))
        ((pair_all_shrinks ks q j v).0 hn)
  | inr e ↦
      pair_all_complete ks (pair_one i p) k j v (pair_one-IsIndexed i p ix) (ground arith) n hm hn
]

has_key-some : {v : Text} (k : Text) (m : Map Text) → lookup k m ≡ some v → has_key k m ≡ true
unfolding has_key
has_key-some k m h = rw h

-- No pair is overlooked: after the pairing no missing file and new file have the same hash, unless
-- it is the hash of the empty file.
pub pair_moves_complete :
    (cr : CompareReport) (k j v : Text)
    → IsMap cr.new_files
    → IsMap cr.missing_files
    → v ≢ empty_file_md5
    → lookup k (pair_moves cr).missing_files ≡ some v
    → lookup j (pair_moves cr).new_files ≢ some v
unfolding pair_moves start missing_queue
pair_moves_complete cr k j v mn mm n hm hn =
    pair_all_complete (missing_queue cr) (start cr) k j v (start-IsIndexed cr mn mm)
      (elem-missing_queue cr k
        ∙ has_key-some k cr.missing_files
            ((pair_all_shrinks (missing_queue cr) (start cr) k v).1 hm))
      n hm hn
