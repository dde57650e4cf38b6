-- ===== src/Tests/Compares.antt =====
-- Two small reports.
use ship_grip_fim.Base.{
  ◌||◌, Bool, true, false, ◌≡◌, ◌≢◌, refl, none, some, [], ◌∷◌, Text, lit, lookup, is_some, Map,
  IsMap, All, if◌then◌else◌, str_eq, insert, remove, sort_strings, insert_sorted, text_leb,
  false≢true, sym, ap,
}
use ship_grip_fim.Compare.{
  CompareReport, classify, pair_moves, pair_all, pair_one, take_candidate, candidates, value_at,
  sort_groups, group, empty_file_md5,
}
use ship_grip_fim.Compare.Loop.{classify_exact, changes_of, expected_changes}
use ship_grip_fim.Compare.Moves.Complete.{pair_moves_complete}
use ship_grip_fim.Compare.Moves.Sound.{pair_moves_sound, IsMove}

abbrev no_pattern : Text → Bool
no_pattern p = false

abbrev old_sums : Map Text
old_sums = (lit "a", lit "1") ∷ (lit "b", lit "2") ∷ (lit "c", lit "3") ∷ []

abbrev new_sums : Map Text
new_sums = (lit "a", lit "9") ∷ (lit "d", lit "2") ∷ []

old-IsMap : IsMap old_sums
unfolding lookup lit str_eq
old-IsMap = (refl, (refl, (refl, tt)))

new-IsMap : IsMap new_sums
unfolding lookup lit str_eq
new-IsMap = (refl, (refl, tt))

classify_exact_example :
    (lookup (lit "a") (classify no_pattern old_sums new_sums).missing_files ≡ (
      if no_pattern (lit "a") || is_some (lookup (lit "a") new_sums)
      then none
      else lookup (lit "a") old_sums))
    × (lookup (lit "a") (classify no_pattern old_sums new_sums).new_files ≡ (
        if no_pattern (lit "a") || is_some (lookup (lit "a") old_sums)
        then none
        else lookup (lit "a") new_sums))
    × (changes_of no_pattern (lit "a") (classify no_pattern old_sums new_sums).changed_files
        ≡ expected_changes no_pattern
            (lit "a")
            (lookup (lit "a") old_sums)
            (lookup (lit "a") new_sums))
classify_exact_example = classify_exact no_pattern old_sums new_sums (lit "a") old-IsMap new-IsMap

abbrev moved_report : CompareReport
moved_report = record {
  new_files = (lit "d", lit "2") ∷ (lit "e", lit "4") ∷ [];
  missing_files = (lit "b", lit "2") ∷ (lit "c", lit "3") ∷ [];
  changed_files = [];
  moved_files = [];
}

moved_new : IsMap moved_report.new_files
unfolding lookup lit str_eq
moved_new = (refl, (refl, tt))

moved_missing : IsMap moved_report.missing_files
unfolding lookup lit str_eq
moved_missing = (refl, (refl, tt))

not_the_empty_hash : lit "3" ≢ empty_file_md5
unfolding lit
not_the_empty_hash e = false≢true (sym (ap is_single e))
  where
    is_single : Text → Bool
    is_single (c ∷ []) = true
    is_single _ = false

still_missing : lookup (lit "c") (pair_moves moved_report).missing_files ≡ some (lit "3")
unfolding pair_moves pair_all pair_one take_candidate candidates value_at lookup insert remove lit
    str_eq sort_strings insert_sorted text_leb sort_groups group
still_missing = refl

pair_moves_complete_example : lookup (lit "d") (pair_moves moved_report).new_files ≢ some (lit "3")
pair_moves_complete_example =
    pair_moves_complete moved_report (lit "c") (lit "d") (lit "3") moved_new moved_missing
      not_the_empty_hash still_missing

pair_moves_sound_example :
    All (IsMove moved_report (pair_moves moved_report)) (pair_moves moved_report).moved_files
pair_moves_sound_example = pair_moves_sound moved_report moved_new moved_missing refl
