-- ===== src/QuickCompare/Newest.antt =====
-- quickcompare.go: the two reports that are found are the newest of their name.
use ship_grip_fim.QuickCompare.Distinct.{AreDistinct, found_apart}
use ship_grip_fim.Base.{
  ℕ, Bool, false, not, ◌&&◌, ltb, keep, has_prefix, lit, str_eq, str_eq_iff, ◌≤◌, ◌<◌, true, ◌≡◌,
  refl, sym, subst, ◌⊎◌, inl, inr, some, List, [], ◌∷◌, Text, length, arith, Bool-cases,
  Option-cases, ok, err, In, here, there, ◌==◌,
}
use ship_grip_fim.QuickCompare.{
  ParseTime, Dated, parse_report_timestamp, extract_report_name, is_scan_of, matching_reports,
  sort_dated, newest_two, too_few, find_last_two_reports, found_two,
}
use ship_grip_fim.QuickCompare.Sorted.{
  IsChronological, newer_count, sort-count, sort-IsChronological, In-sort, All-In, sort-length,
  newest_two-none,
}

-- The last two of a list in the order of time.
abbrev pub AreNewest : Dated → Dated → List Dated → Type 0
AreNewest o n ds =
    In o ds
    × In n ds
    × (o.time ≤ n.time)
    × (newer_count n.time ds ≡ 0)
    × (newer_count o.time ds ≤ 1)

newest_two_lem :
    (ds : List Dated) (o n : Dated)
    → IsChronological ds
    → newest_two ds ≡ some (o, n)
    → AreNewest o n ds
unfolding newest_two
newest_two_lem [] o n c h = absurd (ground arith)
newest_two_lem (x ∷ []) o n c h = absurd (ground arith)
newest_two_lem (x ∷ y ∷ []) o n c h =
    let p : x ≡ o = ground arith in
    let q : y ≡ n = ground arith in
    rw (sym p, sym q) (here, there here, c.0.0, ground arith, ground (arith, c.0.0))
newest_two_lem (x ∷ y ∷ z ∷ xs) o n c h =
    let r = newest_two_lem (y ∷ z ∷ xs) o n c.1 h in
    let a = All-In x.time (y ∷ z ∷ xs) o c.0 r.0 in
    (there r.0, there r.1, r.2, ground (arith, r.2, r.3), ground (arith, r.4))

at_head :
    (parse : ParseTime) (report_name x : Text) (names : List Text) (d : Dated)
    → is_scan_of report_name x ≡ true
    → 0 < parse_report_timestamp parse x
    → (In d (matching_reports parse report_name names)
        → In d.name names
          × (is_scan_of report_name d.name ≡ true)
          × (d.time ≡ parse_report_timestamp parse d.name)
          × (0 < d.time))
    → In d (
        record { name = x; time = parse_report_timestamp parse x }
        ∷ matching_reports parse report_name names)
    → In d.name (x ∷ names)
      × (is_scan_of report_name d.name ≡ true)
      × (d.time ≡ parse_report_timestamp parse d.name)
      × (0 < d.time)
at_head parse rn x ns d e z f here = (here, e, refl, z)
at_head parse rn x ns d e z f (there m) = let r = f m in (there r.0, r.1, r.2, r.3)

-- The names with a timestamp among the scan reports of one name are exactly what the loop keeps.
matching-In :
    (parse : ParseTime) (report_name : Text) (names : List Text) (d : Dated)
    → In d (matching_reports parse report_name names)
    → In d.name names
      × (is_scan_of report_name d.name ≡ true)
      × (d.time ≡ parse_report_timestamp parse d.name)
      × (0 < d.time)
unfolding matching_reports
matching-In parse rn [] d h = elim h [ ]
matching-In parse rn (x ∷ ns) d h = elim (Bool-cases (is_scan_of rn x)) [
  | inr e ↦
      let r = matching-In parse rn ns d (subst (In d) (rw e refl) h) in (there r.0, r.1, r.2, r.3)
  | inl e ↦ elim (Bool-cases (parse_report_timestamp parse x == 0)) [
    | inl z ↦
        let r = matching-In parse rn ns d (subst (In d) (rw (e, z) refl) h) in
        (there r.0, r.1, r.2, r.3)
    | inr z ↦
        at_head parse rn x ns d e (ground arith) (λ m. matching-In parse rn ns d m)
          (subst (In d) (rw (e, z) refl) h)
  ]
]

-- A name of the directory is a scan report of the name, with a timestamp after `t`.
abbrev pub is_after : ParseTime → Text → ℕ → Text → Bool
is_after parse report_name t n =
    not (has_prefix (lit "compare__") n)
    && str_eq (extract_report_name n) report_name
    && ltb t (parse_report_timestamp parse n)

-- How many names of the directory are.
abbrev pub after_count : ParseTime → Text → ℕ → List Text → ℕ
after_count parse report_name t names = length (keep (is_after parse report_name t) names)

matching-count :
    (parse : ParseTime) (report_name : Text) (t : ℕ) (names : List Text)
    → newer_count t (matching_reports parse report_name names)
      ≡ after_count parse report_name t names
unfolding matching_reports is_scan_of
matching-count parse rn t [] = refl
matching-count parse rn t (n ∷ ns) = ground (arith, matching-count parse rn t ns)

matching-length :
    (parse : ParseTime) (report_name : Text) (names : List Text)
    → length (matching_reports parse report_name names) ≡ after_count parse report_name 0 names
unfolding matching_reports is_scan_of
matching-length parse rn [] = refl
matching-length parse rn (n ∷ ns) = ground (arith, matching-length parse rn ns)

-- A scan report of the name with the timestamp `t`, which is one.
abbrev pub IsReport : ParseTime → Text → List Text → Text → ℕ → Type 0
IsReport parse report_name names n t =
    In n names
    × (has_prefix (lit "compare__") n ≡ false)
    × (extract_report_name n ≡ report_name)
    × (t ≡ parse_report_timestamp parse n)
    × (0 < t)

scan_of_parts :
    (report_name n : Text)
    → is_scan_of report_name n ≡ true
    → (has_prefix (lit "compare__") n ≡ false) × (extract_report_name n ≡ report_name)
unfolding is_scan_of
scan_of_parts rn n h = elim (Bool-cases (has_prefix (lit "compare__") n)) [
  | inl e ↦ absurd (ground (arith, e, h))
  | inr e ↦ (e, (str_eq_iff (extract_report_name n) rn).0 (ground (arith, e, h)))
]

matching-IsReport :
    (parse : ParseTime) (report_name : Text) (names : List Text) (d : Dated)
    → In d (matching_reports parse report_name names)
    → IsReport parse report_name names d.name d.time
matching-IsReport parse rn names d h =
    let k = matching-In parse rn names d h in
    let (c, e) = scan_of_parts rn d.name k.1 in (k.0, c, e, k.2, k.3)

newest_two-some : (ds : List Dated) (p : Dated × Dated) → newest_two ds ≡ some p → 2 ≤ length ds
unfolding newest_two
newest_two-some [] p h = absurd (ground arith)
newest_two-some (x ∷ []) p h = absurd (ground arith)
newest_two-some (x ∷ y ∷ xs) p h = omega arith

-- In a directory, which has no name twice, the two reports that quickcompare finds are two different
-- names of it, both scan reports of the name with a timestamp, the first not newer than the second; no
-- such report of the directory is newer than the second, and at most one is newer than the first. It
-- finds none exactly when the directory has fewer than two such reports, and says how many.
pub newest_two_found :
    (parse : ParseTime) (report_name : Text) (names : List Text)
    → AreDistinct names
    → let count = after_count parse report_name 0 names in
      ((count < 2) × (find_last_two_reports parse report_name (some names) ≡ err (too_few count)))
      ⊎ ((2 ≤ count)
          × (o : Text) × (n : Text) × (s : ℕ) × (t : ℕ) × (find_last_two_reports parse report_name
                (some names)
              ≡ ok (o, n))
          × IsReport parse report_name names o s
          × IsReport parse report_name names n t
          × (str_eq o n ≡ false)
          × (s ≤ t)
          × (after_count parse report_name t names ≡ 0)
          × (after_count parse report_name s names ≤ 1))
unfolding find_last_two_reports found_two
newest_two_found parse rn names dist =
    let found = matching_reports parse rn names in
    let sorted = sort_dated found in
    let size = matching-length parse rn names in
    elim (Option-cases (newest_two sorted)) [
      | inl e ↦
          inl (omega (arith, sort-length found, newest_two-none sorted e, size), rw (e, size) refl)
      | inr ((o, n), e) ↦
          let r = newest_two_lem sorted o n (sort-IsChronological found) e in
          inr (
            omega (arith, sort-length found, newest_two-some sorted (o, n) e, size),
            o.name,
            n.name,
            o.time,
            n.time,
            rw e refl,
            matching-IsReport parse rn names o (In-sort o found r.0),
            matching-IsReport parse rn names n (In-sort n found r.1),
            found_apart parse rn names o n dist e,
            r.2,
            omega (arith, r.3, sort-count n.time found, matching-count parse rn n.time names),
            omega (arith, r.4, sort-count o.time found, matching-count parse rn o.time names),
          )
    ]
