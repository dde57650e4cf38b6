-- ===== src/QuickCompare.antt =====
-- quickcompare.go and agent_metrics.go: report file names, and the two newest reports of a name.
-- A time is the number of seconds since Go's zero time, which is 0. `time.ParseInLocation` depends
-- on the zone of the machine: it is the parameter `parse`, from a layout and a text.
pub mod Sorted
pub mod Distinct
pub mod Newest
use ship_grip_fim.Base.{
  ℕ, ◌-◌, Bool, true, false, ◌==◌, not, Option, none, some, List, [], ◌∷◌, ◌++◌, Text, lit, str_eq,
  ltb, if◌then◌else◌, length, take, keep, is_nil, has_prefix, split, join, Result, ok, err,
}
use ship_grip_fim.Report.Store.{ReportConfig, ReportError, Outcome}
use ship_grip_fim.Report.Compare.{CompareState, compare_reports_string}

abbrev pub ParseTime : Type 0
ParseTime = Text → Text → Option ℕ

unfoldable pub name_tokens : Text → List Text
name_tokens filename = keep (λ p. not (is_nil p)) (split b'_' filename)

unfoldable pub last_two : List Text → Option (Text × Text)
last_two [] = none
last_two (x ∷ []) = none
last_two (x ∷ y ∷ []) = some (x, y)
last_two (x ∷ y ∷ z ∷ xs) = last_two (y ∷ z ∷ xs)

unfoldable pub extract_report_name : Text → Text
unfolding name_tokens
extract_report_name filename =
    let tok = name_tokens filename in
    if ltb (length tok) 3 then filename else join (lit "_") (take (length tok - 2) tok)

-- The current layout and the legacy one.
unfoldable pub parse_date_time : ParseTime → Text → ℕ
parse_date_time parse s = elim (parse (lit "2006-01-02 15-04-05") s) [
  | some t ↦ t
  | none ↦ elim (parse (lit "2006-01-02 15:04:05") s) [ some t ↦ t | none ↦ 0 ]
]

unfoldable pub parse_report_timestamp : ParseTime → Text → ℕ
unfolding name_tokens last_two parse_date_time
parse_report_timestamp parse filename = elim (last_two (name_tokens filename)) [
  | none ↦ 0
  | some (date, time) ↦ parse_date_time parse (date ++ (b' ' ∷ time))
]

unfoldable pub most_recent_report_time : ParseTime → ℕ → List Text → ℕ
unfolding parse_report_timestamp
most_recent_report_time parse latest [] = latest
most_recent_report_time parse latest (n ∷ ns) =
    let t = parse_report_timestamp parse n in
    most_recent_report_time parse
      (if not (t == 0) then (if ltb latest t then t else latest) else latest) ns

pub record Dated : Type 0 where
  pub name : Text
  pub time : ℕ

unfoldable pub is_scan_of : Text → Text → Bool
is_scan_of report_name name =
    if has_prefix (lit "compare__") name
    then false
    else str_eq (extract_report_name name) report_name

-- The entries of the report directory that the loop keeps.
unfoldable pub matching_reports : ParseTime → Text → List Text → List Dated
matching_reports parse report_name [] = []
matching_reports parse report_name (n ∷ ns) =
    let rest = matching_reports parse report_name ns in
    let t = parse_report_timestamp parse n in
    if not (is_scan_of report_name n)
    then rest
    else if t == 0
    then rest
    else record { name = n; time = t } ∷ rest

unfoldable pub insert_dated : Dated → List Dated → List Dated
insert_dated d [] = d ∷ []
insert_dated d (e ∷ es) =
    let rest = insert_dated d es in if ltb e.time d.time then e ∷ rest else d ∷ e ∷ es

-- sort.Slice, of which the order of equal times is not promised: here it is the given one.
unfoldable pub sort_dated : List Dated → List Dated
unfolding insert_dated
sort_dated [] = []
sort_dated (d ∷ ds) = insert_dated d (sort_dated ds)

unfoldable pub newest_two : List Dated → Option (Dated × Dated)
newest_two [] = none
newest_two (x ∷ []) = none
newest_two (x ∷ y ∷ []) = some (x, y)
newest_two (x ∷ y ∷ z ∷ xs) = newest_two (y ∷ z ∷ xs)

pub data QuickError : Type 0 where
  cannot_read : QuickError
  too_few : ℕ → QuickError

found_two : ℕ → Option (Dated × Dated) → Result QuickError (Text × Text)
found_two n none = err (too_few n)
found_two n (some (older, newer)) = ok (older.name, newer.name)

-- `none` if the directory cannot be read.
unfoldable pub find_last_two_reports :
    ParseTime → Text → Option (List Text) → Result QuickError (Text × Text)
unfolding found_two
find_last_two_reports parse report_name none = err cannot_read
find_last_two_reports parse report_name (some names) =
    let found = matching_reports parse report_name names in
    found_two (length found) (newest_two (sort_dated found))

pub data QuickResult : Type 0 where
  not_found : QuickError → QuickResult
  quick : Text → Text → Result ReportError Text → QuickResult

-- The answer and the state of `quickCompareString`; `time` and `how` are those of the compare.
unfoldable pub quick_compare_string :
    ParseTime
    → ReportConfig
    → Text
    → Outcome
    → Option (List Text)
    → CompareState
    → QuickResult × CompareState
quick_compare_string parse c time how names s =
    elim (find_last_two_reports parse c.report_name names) [
      | err e ↦ (not_found e, s)
      | ok (older, newer) ↦
          let (r, s') = compare_reports_string c time how older newer s in (quick older newer r, s')
    ]
