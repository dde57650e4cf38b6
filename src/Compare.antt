-- ===== src/Compare.antt =====
-- logic.go: the diff of two reports.
pub mod Moves
pub mod Loop
use ship_grip_fim.Base.{
  ℕ, Bool, true, false, ◌&&◌, ◌||◌, not, Option, none, some, List, [], ◌∷◌, ◌++◌, Text, lit, str_eq,
  if◌then◌else◌, Map, lookup, insert, remove, keys, sort_strings,
}

-- A compiled pattern is the predicate that it stands for; a nil pointer is `none`.
abbrev pub Patterns : Type 0
Patterns = List (Option (Text → Bool))

unfoldable pub matches_any : Patterns → Text → Bool
matches_any [] s = false
matches_any (none ∷ ps) s = matches_any ps s
matches_any (some p ∷ ps) s = let rest = matches_any ps s in if p s then true else rest

pub record Change : Type 0 where
  pub path : Text
  pub old_hash : Text
  pub new_hash : Text

pub record Move : Type 0 where
  pub old_path : Text
  pub new_path : Text
  pub hash : Text

pub record CompareReport : Type 0 where
  pub new_files : Map Text
  pub missing_files : Map Text
  pub changed_files : List Change
  pub moved_files : List Move

abbrev pub empty_report : CompareReport
empty_report = record { new_files = []; missing_files = []; changed_files = []; moved_files = [] }

abbrev pub empty_file_md5 : Text
empty_file_md5 = lit "d41d8cd98f00b204e9800998ecf8427e"

module _ (ignored : Text → Bool) where
  -- One turn of the loop over the old report, given what the new report has at `k`. The second
  -- part of the result is the new report, from which the path is deleted if it was found.
  old_entry : Text → Text → Option Text → CompareReport × Map Text → CompareReport × Map Text
  old_entry k v (some v2) (cr, new) = (
    if not (str_eq v2 v) && not (ignored k)
        then record cr {
          changed_files = cr.changed_files ++ record { path = k; old_hash = v; new_hash = v2 } ∷ [];
        }
        else cr,
    remove k new,
  )
  old_entry k v none (cr, new) = (
    if not (ignored k) then record cr { missing_files = insert k v cr.missing_files } else cr,
    new,
  )

  unfoldable pub scan_old : Map Text → CompareReport × Map Text → CompareReport × Map Text
  unfolding old_entry
  scan_old [] acc = acc
  scan_old ((k, v) ∷ old) acc = scan_old old (old_entry k v (lookup k acc.1) acc)

  unfoldable pub scan_new : Map Text → CompareReport → CompareReport
  scan_new [] cr = cr
  scan_new ((k, v) ∷ new) cr =
      scan_new new
        (if not (ignored k) then record cr { new_files = insert k v cr.new_files } else cr)

-- A missing key of a `map[string][]string` gives nil.
unfoldable pub candidates : Map (List Text) → Text → List Text
candidates by_hash h = elim (lookup h by_hash) [ none ↦ [] | some paths ↦ paths ]

-- `newByHash[v] = append(newByHash[v], k)` for every new file.
unfoldable pub group : Map Text → Map (List Text) → Map (List Text)
unfolding candidates
group [] by_hash = by_hash
group ((k, v) ∷ files) by_hash = group files (insert v (candidates by_hash v ++ k ∷ []) by_hash)

unfoldable pub sort_groups : Map (List Text) → Map (List Text)
sort_groups [] = []
sort_groups ((h, paths) ∷ m) = (h, sort_strings paths) ∷ sort_groups m

-- `m[k]`, the empty string for a missing key.
unfoldable pub value_at : Text → Map Text → Text
value_at k m = elim (lookup k m) [ none ↦ [] | some v ↦ v ]

pub record Pairing : Type 0 where
  pub by_hash : Map (List Text)
  pub report : CompareReport

-- A missing path of hash `v` takes the first candidate with that hash.
unfoldable pub take_candidate : Text → Text → List Text → Pairing → Pairing
take_candidate k v [] p = p
take_candidate k v (k2 ∷ rest) p = record {
  by_hash = insert v rest p.by_hash;
  report = record {
    new_files = remove k2 p.report.new_files;
    missing_files = remove k p.report.missing_files;
    changed_files = p.report.changed_files;
    moved_files = p.report.moved_files ++ record { old_path = k; new_path = k2; hash = v } ∷ [];
  };
}

unfoldable pub pair_one : Text → Pairing → Pairing
unfolding take_candidate value_at candidates
pair_one k p =
    let v = value_at k p.report.missing_files in
    if str_eq v empty_file_md5 then p else take_candidate k v (candidates p.by_hash v) p

unfoldable pub pair_all : List Text → Pairing → Pairing
pair_all [] p = p
pair_all (k ∷ ks) p = pair_all ks (pair_one k p)

unfoldable pub pair_moves : CompareReport → CompareReport
pair_moves cr =
    (pair_all (sort_strings (keys cr.missing_files))
      (record { by_hash = sort_groups (group cr.new_files []); report = cr })).report

-- The report before the moves are paired, and the whole diff.
unfoldable pub classify : (Text → Bool) → Map Text → Map Text → CompareReport
classify ignored old new =
    let (cr, left) = scan_old ignored old (empty_report, new) in scan_new ignored left cr

unfoldable pub diff : (Text → Bool) → Map Text → Map Text → CompareReport
unfolding classify pair_moves
diff ignored old new = pair_moves (classify ignored old new)
