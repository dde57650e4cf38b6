-- ===== src/Compare/Moves/Steps.antt =====
-- logic.go: the loop that pairs moves, one missing path at a time.
use ship_grip_fim.Base.{
  true, ◌≡◌, ◌≢◌, refl, sym, ◌∙◌, inl, inr, ◌⊎◌, some, List, [], ◌∷◌, arith, Text, str_eq,
  str_eq_iff, str_eq→eq, lookup, IsMap, keys, has_key, lookup-remove, elem, Distinct, sort_strings,
  sort_strings-Distinct, keys-Distinct, elem-keys, elem-sort_strings, Bool-cases,
}
use ship_grip_fim.Compare.Moves.Index.{IsIndexed, pair_one-IsIndexed}
use ship_grip_fim.Compare.{
  CompareReport, Pairing, empty_file_md5, candidates, value_at, take_candidate, pair_one, pair_all,
  group, sort_groups,
}

-- What one step of the pairing does, with the reason.
pub data Paired (k : Text) (p : Pairing) : Pairing → Type 0 where
  skipped :
      (value_at k p.report.missing_files ≡ empty_file_md5)
        ⊎ (candidates p.by_hash (value_at k p.report.missing_files) ≡ [])
      → Paired k p p
  moved :
      (v k2 : Text) (rest : List Text)
      → v ≡ value_at k p.report.missing_files
      → v ≢ empty_file_md5
      → candidates p.by_hash v ≡ k2 ∷ rest
      → Paired k p (take_candidate k v (k2 ∷ rest) p)

take-Paired :
    (k v : Text) (p : Pairing) (cs : List Text)
    → v ≡ value_at k p.report.missing_files
    → v ≢ empty_file_md5
    → candidates p.by_hash v ≡ cs
    → Paired k p (take_candidate k v cs p)
take-Paired k v p [] e n c = unfold take_candidate in skipped (inr (rw (← e) c))
take-Paired k v p (k2 ∷ rest) e n c = moved v k2 rest e n c

pub pair_one-Paired : (k : Text) (p : Pairing) → Paired k p (pair_one k p)
unfolding pair_one
pair_one-Paired k p =
    let v = value_at k p.report.missing_files in
    elim (Bool-cases (str_eq v empty_file_md5)) [
      | inl e ↦ rw e (skipped (inl (str_eq→eq v empty_file_md5 e)))
      | inr e ↦ rw e (
          take-Paired k v p (candidates p.by_hash v) refl
            (λ same. cc ((str_eq_iff v empty_file_md5).1 same)) refl)
    ]

-- Files only leave the two maps.
Paired-shrinks :
    {k : Text} {p q : Pairing} (j v : Text)
    → Paired k p q
    → ((lookup j q.report.new_files ≡ some v) → lookup j p.report.new_files ≡ some v)
      × ((lookup j q.report.missing_files ≡ some v) → lookup j p.report.missing_files ≡ some v)
unfolding take_candidate
Paired-shrinks j v (skipped why) = (λ h. h, λ h. h)
Paired-shrinks {k} {p} j v (moved w k2 rest e n c) = (
  λ h. ground (arith, lookup-remove k2 j p.report.new_files),
  λ h. ground (arith, lookup-remove k j p.report.missing_files),
)

pub pair_all_shrinks :
    (ks : List Text) (p : Pairing) (j v : Text)
    → ((lookup j (pair_all ks p).report.new_files ≡ some v) → lookup j p.report.new_files ≡ some v)
      × ((lookup j (pair_all ks p).report.missing_files ≡ some v)
          → lookup j p.report.missing_files ≡ some v)
unfolding pair_all
pair_all_shrinks [] p j v = (λ h. h, λ h. h)
pair_all_shrinks (k ∷ ks) p j v =
    let (new, missing) = pair_all_shrinks ks (pair_one k p) j v in
    let (new', missing') = Paired-shrinks j v (pair_one-Paired k p) in
    (λ h. new' (new h), λ h. missing' (missing h))

-- The paths still to be paired are missing files, each once.
pub record IsQueue (ks : List Text) (p : Pairing) : Type 0 where
  pub known : (k : Text) → elem k ks ≡ true → has_key k p.report.missing_files ≡ true
  pub once : Distinct ks

pub IsQueue-tail :
    {k : Text} {p q : Pairing} (ks : List Text) → Paired k p q → IsQueue (k ∷ ks) p → IsQueue ks q
unfolding take_candidate has_key
IsQueue-tail ks (skipped why) i = record {
  known = λ j h. i.known j (ground arith);
  once = i.once.1;
}
IsQueue-tail {k} {p} ks (moved w k2 rest e n c) i = record {
  known = λ j h.
      ground (arith, lookup-remove k j p.report.missing_files, str_eq_iff k j, i.known j, i.once.0);
  once = i.once.1;
}

pub pair_all-IsIndexed : (ks : List Text) (p : Pairing) → IsIndexed p → IsIndexed (pair_all ks p)
unfolding pair_all
pair_all-IsIndexed [] p ix = ix
pair_all-IsIndexed (k ∷ ks) p ix = pair_all-IsIndexed ks (pair_one k p) (pair_one-IsIndexed k p ix)

unfoldable pub start : CompareReport → Pairing
start cr = record { by_hash = sort_groups (group cr.new_files []); report = cr }

unfoldable pub missing_queue : CompareReport → List Text
missing_queue cr = sort_strings (keys cr.missing_files)

pub elem-missing_queue :
    (cr : CompareReport) (k : Text) → elem k (missing_queue cr) ≡ has_key k cr.missing_files
unfolding missing_queue
elem-missing_queue cr k = elem-sort_strings k (keys cr.missing_files) ∙ elem-keys k cr.missing_files

pub missing-IsQueue :
    (cr : CompareReport) → IsMap cr.missing_files → IsQueue (missing_queue cr) (start cr)
unfolding start missing_queue
missing-IsQueue cr m = record {
  known = λ k h. sym (elem-missing_queue cr k) ∙ h;
  once = sort_strings-Distinct (keys cr.missing_files) (keys-Distinct cr.missing_files m);
}
