-- ===== src/Compare/Loop.antt =====
-- logic.go: the two loops that classify the paths of two reports.
use ship_grip_fim.Base.{
  Bool, ◌≡◌, refl, Option, none, some, List, [], ◌∷◌, arith, Text, str_eq, str_eq_iff,
  if◌then◌else◌, Map, lookup, insert, IsMap, lookup-insert, lookup-remove, not, ◌&&◌, ◌++◌, is_some,
  remove-IsMap, keep, keep-append, append-nil, ◌∙◌, ◌||◌,
}
use ship_grip_fim.Compare.{
  Change, CompareReport, empty_report, old_entry, scan_old, scan_new, classify,
}

module _ (ignored : Text → Bool) where
  old_entry-new :
      (k v : Text) (o : Option Text) (acc : CompareReport × Map Text) (j : Text)
      → o ≡ lookup k acc.1
      → lookup j (old_entry ignored k v o acc).1 ≡ (if str_eq k j then none else lookup j acc.1)
  unfolding old_entry
  old_entry-new k v none acc j h = ground (arith, str_eq_iff k j)
  old_entry-new k v (some v2) acc j h = lookup-remove k j acc.1

  old_entry-missing :
      (k v : Text) (o : Option Text) (acc : CompareReport × Map Text) (j : Text)
      → lookup j (old_entry ignored k v o acc).0.missing_files ≡ (
          if str_eq k j && not (ignored k) && not (is_some o)
          then some v
          else lookup j acc.0.missing_files)
  unfolding old_entry
  old_entry-missing k v none acc j = ground (arith, lookup-insert k j v acc.0.missing_files)
  old_entry-missing k v (some v2) acc j = ground arith

  -- What the loop over the old report leaves of the new one.
  scan_old-new :
      (old : Map Text) (acc : CompareReport × Map Text) (j : Text)
      → lookup j (scan_old ignored old acc).1
        ≡ (if is_some (lookup j old) then none else lookup j acc.1)
  unfolding scan_old lookup
  scan_old-new [] acc j = refl
  scan_old-new ((k, v) ∷ old) acc j = ground (
    arith,
    scan_old-new old (old_entry ignored k v (lookup k acc.1) acc) j,
    old_entry-new k v (lookup k acc.1) acc j refl,
  )

  -- The missing paths: in the old report, not in the new one, not ignored.
  scan_old-missing :
      (old : Map Text) (acc : CompareReport × Map Text) (j : Text)
      → IsMap old
      → lookup j (scan_old ignored old acc).0.missing_files ≡ (
          if is_some (lookup j old) && not (ignored j) && not (is_some (lookup j acc.1))
          then lookup j old
          else lookup j acc.0.missing_files)
  unfolding scan_old lookup
  scan_old-missing [] acc j m = refl
  scan_old-missing ((k, v) ∷ old) acc j m = ground (
    arith,
    scan_old-missing old (old_entry ignored k v (lookup k acc.1) acc) j m.1,
    old_entry-new k v (lookup k acc.1) acc j refl,
    old_entry-missing k v (lookup k acc.1) acc j,
    str_eq_iff k j,
    m.0,
  )

  scan_new-new :
      (new : Map Text) (cr : CompareReport) (j : Text)
      → IsMap new
      → lookup j (scan_new ignored new cr).new_files ≡ (
          if is_some (lookup j new) && not (ignored j) then lookup j new else lookup j cr.new_files)
  unfolding scan_new lookup
  scan_new-new [] cr j m = refl
  scan_new-new ((k, v) ∷ new) cr j m = ground (
    arith,
    scan_new-new new
        (if not (ignored k) then record cr { new_files = insert k v cr.new_files } else cr) j m.1,
    lookup-insert k j v cr.new_files,
    str_eq_iff k j,
    m.0,
  )

  old_entry-IsMap :
      (k v : Text) (o : Option Text) (acc : CompareReport × Map Text)
      → IsMap acc.1
      → IsMap (old_entry ignored k v o acc).1
  unfolding old_entry
  old_entry-IsMap k v none acc m = m
  old_entry-IsMap k v (some v2) acc m = remove-IsMap k acc.1 m

  scan_old-IsMap :
      (old : Map Text) (acc : CompareReport × Map Text)
      → IsMap acc.1
      → IsMap (scan_old ignored old acc).1
  unfolding scan_old
  scan_old-IsMap [] acc m = m
  scan_old-IsMap ((k, v) ∷ old) acc m =
      scan_old-IsMap old (old_entry ignored k v (lookup k acc.1) acc)
        (old_entry-IsMap k v (lookup k acc.1) acc m)

  old_entry-new_files :
      (k v : Text) (o : Option Text) (acc : CompareReport × Map Text)
      → (old_entry ignored k v o acc).0.new_files ≡ acc.0.new_files
  unfolding old_entry
  old_entry-new_files k v none acc = ground arith
  old_entry-new_files k v (some v2) acc = ground arith

  scan_old-new_files :
      (old : Map Text) (acc : CompareReport × Map Text)
      → (scan_old ignored old acc).0.new_files ≡ acc.0.new_files
  unfolding scan_old
  scan_old-new_files [] acc = refl
  scan_old-new_files ((k, v) ∷ old) acc =
      scan_old-new_files old (old_entry ignored k v (lookup k acc.1) acc)
      ∙ old_entry-new_files k v (lookup k acc.1) acc

  scan_new_rest :
      (new : Map Text) (cr : CompareReport)
      → ((scan_new ignored new cr).missing_files ≡ cr.missing_files)
        × ((scan_new ignored new cr).changed_files ≡ cr.changed_files)
  unfolding scan_new
  scan_new_rest [] cr = (refl, refl)
  scan_new_rest ((k, v) ∷ new) cr = ground (
    arith,
    scan_new_rest new
        (if not (ignored k) then record cr { new_files = insert k v cr.new_files } else cr),
  )

  -- The entries about one path in a list of changes.
  abbrev pub changes_of : Text → List Change → List Change
  changes_of j = keep (λ c. str_eq c.path j)

  -- What the list of changes should hold about a path, given its hashes in the two reports.
  pub expected_changes : Text → Option Text → Option Text → List Change
  expected_changes j (some a) (some b) =
      if str_eq a b || ignored j then [] else record { path = j; old_hash = a; new_hash = b } ∷ []
  expected_changes j (some a) none = []
  expected_changes j none o = []

  old_entry-changed :
      (k v : Text) (o : Option Text) (acc : CompareReport × Map Text) (j : Text)
      → changes_of j (old_entry ignored k v o acc).0.changed_files
        ≡ changes_of j acc.0.changed_files
          ++ (if str_eq k j then expected_changes j (some v) o else [])
  unfolding old_entry expected_changes
  old_entry-changed k v none acc j = ground (arith, append-nil (changes_of j acc.0.changed_files))
  old_entry-changed k v (some v2) acc j = ground (
    arith,
    append-nil (changes_of j acc.0.changed_files),
    str_eq_iff v v2,
    str_eq_iff v2 v,
    str_eq_iff k j,
    keep-append (λ (c : Change). str_eq c.path j) acc.0.changed_files
        (record { path = k; old_hash = v; new_hash = v2 } ∷ []),
  )

  expected_none : (j : Text) (o : Option Text) → expected_changes j none o ≡ []
  unfolding expected_changes
  expected_none j o = refl

  scan_old-changed :
      (old : Map Text) (acc : CompareReport × Map Text) (j : Text)
      → IsMap old
      → changes_of j (scan_old ignored old acc).0.changed_files
        ≡ changes_of j acc.0.changed_files ++ expected_changes j (lookup j old) (lookup j acc.1)
  unfolding scan_old lookup
  scan_old-changed [] acc j m = rw (expected_none, append-nil) refl
  scan_old-changed ((k, v) ∷ old) acc j m = ground (
    arith,
    scan_old-changed old (old_entry ignored k v (lookup k acc.1) acc) j m.1,
    old_entry-new k v (lookup k acc.1) acc j refl,
    old_entry-changed k v (lookup k acc.1) acc j,
    str_eq_iff k j,
    m.0,
    expected_none j (lookup j acc.1),
    expected_none j none,
    append-nil (changes_of j acc.0.changed_files ++ expected_changes j (some v) (lookup j acc.1)),
    append-nil (changes_of j acc.0.changed_files),
  )

  -- Before moves are paired, each path is in the report exactly as its hashes in the two reports
  -- (a map each) say: missing if only the old one has it, new if only the new one has it, changed,
  -- once, if both have it with different hashes, and nowhere if it is ignored.
  pub classify_exact :
      (old new : Map Text) (j : Text)
      → IsMap old
      → IsMap new
      → let cr = classify ignored old new in
        (lookup j cr.missing_files
          ≡ (if ignored j || is_some (lookup j new) then none else lookup j old))
        × (lookup j cr.new_files
            ≡ (if ignored j || is_some (lookup j old) then none else lookup j new))
        × (changes_of j cr.changed_files ≡ expected_changes j (lookup j old) (lookup j new))
  unfolding classify lookup
  classify_exact old new j mo mn =
      let acc : CompareReport × Map Text = (empty_report, new) in
      let (cr, left) = scan_old ignored old acc in
      let (missing, changed) = scan_new_rest left cr in
      (
        rw (missing, scan_old-missing old acc j mo) (ground arith),
        rw
            (
              scan_new-new left cr j (scan_old-IsMap old acc mn),
              scan_old-new old acc j,
              scan_old-new_files old acc,
            )
            (ground arith),
        rw (changed, scan_old-changed old acc j mo) refl,
      )
