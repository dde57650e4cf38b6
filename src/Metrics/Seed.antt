-- ===== src/Metrics/Seed.antt =====
-- agent_metrics.go, initAgentState: what an agent that starts knows of the reports that are there.
use ship_grip_fim.Base.{
  ℕ, suc, ◌≤◌, ◌<◌, Bool, false, ◌≡◌, refl, sym, ap, ◌∙◌, ◌==◌, Option, none, some, List, [], ◌∷◌,
  map, Text, lit, if◌then◌else◌, ltb, has_prefix, length, is_nil, arith, All, In, here, there, ◌⊎◌,
  ◌≢◌, inl, inr, subst, Bool-cases, split, unlines, max_scan_token, scan_lines-unlines, IsLine, Map,
}
use ship_grip_fim.Report.Render.{parse_compare_file_stats}
use ship_grip_fim.Report.Store.{ReportConfig, report_lines, entry_line}
use ship_grip_fim.QuickCompare.{
  ParseTime, parse_report_timestamp, extract_report_name, name_tokens, last_two,
}
use ship_grip_fim.Metrics.{
  ScanSeen, CompareSeen, Latest, none_yet, latest_of, latest_in, seeded, init_agent_state,
  count_filled, after_first, count_report_lines,
}

abbrev pub is_compare : Text → Bool
is_compare n = has_prefix (lit "compare__") n

module _ (parse : ParseTime) where
  -- The time of a scan report's name, 0 for any other; and that of a compare report's.
  abbrev pub scan_time : Text → ℕ
  scan_time n = if is_compare n then 0 else parse_report_timestamp parse n

  abbrev pub compare_time : Text → ℕ
  compare_time n = if is_compare n then parse_report_timestamp parse n else 0

  -- What one more name does to the latest scan, or compare: `time` is the time of a name of that
  -- kind, and the latest one has the name `old` before and `new` after.
  abbrev Updated : (Text → ℕ) → Text → ℕ × Text → ℕ × Text → Type 0
  Updated time n (t, old) (t', new) =
      (t ≤ t') × (time n ≤ t') × (((t' ≡ t) × (new ≡ old)) ⊎ ((new ≡ n) × (time n ≡ t') × (0 < t')))

  latest_of-scan :
      (n : Text) (l : Latest)
      → Updated scan_time n
          (l.scan_time, l.scan_report)
          ((latest_of parse n l).scan_time, (latest_of parse n l).scan_report)
  unfolding latest_of
  latest_of-scan n l = elim (Bool-cases (parse_report_timestamp parse n == 0)) [
    | inl e ↦ (ground arith, ground arith, inl (ground arith, ground arith))
    | inr e ↦ elim (Bool-cases (is_compare n)) [
      | inl c ↦ (ground arith, ground arith, inl (ground arith, ground arith))
      | inr c ↦ elim (Bool-cases (ltb l.scan_time (parse_report_timestamp parse n))) [
        | inl k ↦ (ground arith, ground arith, inr (ground arith, ground arith, ground arith))
        | inr k ↦ (ground arith, ground arith, inl (ground arith, ground arith))
      ]
    ]
  ]

  latest_of-compare :
      (n : Text) (l : Latest)
      → Updated compare_time n
          (l.compare_time, l.compare_report)
          ((latest_of parse n l).compare_time, (latest_of parse n l).compare_report)
  unfolding latest_of
  latest_of-compare n l = elim (Bool-cases (parse_report_timestamp parse n == 0)) [
    | inl e ↦ (ground arith, ground arith, inl (ground arith, ground arith))
    | inr e ↦ elim (Bool-cases (is_compare n)) [
      | inr c ↦ (ground arith, ground arith, inl (ground arith, ground arith))
      | inl c ↦ elim (Bool-cases (ltb l.compare_time (parse_report_timestamp parse n))) [
        | inl k ↦ (ground arith, ground arith, inr (ground arith, ground arith, ground arith))
        | inr k ↦ (ground arith, ground arith, inl (ground arith, ground arith))
      ]
    ]
  ]

  -- The names that are left, and the latest one after them.
  abbrev Found : (Text → ℕ) → List Text → ℕ × Text → ℕ × Text → Type 0
  Found time ns (t, old) (t', new) =
      (t ≤ t')
      × All (λ m. time m ≤ t') ns
      × (((t' ≡ t) × (new ≡ old)) ⊎ (In new ns × (time new ≡ t') × (0 < t')))

  All-le :
      (time : Text → ℕ) (t u : ℕ) (ns : List Text)
      → t ≤ u
      → All (λ m. time m ≤ t) ns
      → All (λ m. time m ≤ u) ns
  All-le time t u [] h k = tt
  All-le time t u (n ∷ ns) h k = (omega (arith, h, k.0), All-le time t u ns h k.1)

  -- One name and then the rest.
  Found-cons :
      (time : Text → ℕ) (n : Text) (ns : List Text) (x y z : ℕ × Text)
      → Updated time n x y
      → Found time ns y z
      → Found time (n ∷ ns) x z
  Found-cons time n ns (t, a) (t', b) (u, c) (le, nle, old) (le', all_le, new) = (
    omega arith,
    (omega arith, all_le),
    elim new [
      | inl (p, q) ↦ elim old [
        | inl (p', q') ↦ inl (p ∙ p', q ∙ q')
        | inr (q', e, pos) ↦ inr (
          subst (λ w. In w (n ∷ ns)) (sym (q ∙ q')) here,
          ap time (q ∙ q') ∙ e ∙ sym p,
          omega arith,
        )
      ]
      | inr (i, e, pos) ↦ inr (there i, e, pos)
    ],
  )

  latest_in-scan :
      (ns : List Text) (l : Latest)
      → Found scan_time ns
          (l.scan_time, l.scan_report)
          ((latest_in parse ns l).scan_time, (latest_in parse ns l).scan_report)
  unfolding latest_in
  latest_in-scan [] l = (omega arith, tt, inl (refl, refl))
  latest_in-scan (n ∷ ns) l =
      let l' = latest_of parse n l in
      let r = latest_in parse ns l' in
      Found-cons scan_time n ns (l.scan_time, l.scan_report) (l'.scan_time, l'.scan_report)
        (r.scan_time, r.scan_report) (latest_of-scan n l) (latest_in-scan ns l')

  latest_in-compare :
      (ns : List Text) (l : Latest)
      → Found compare_time ns
          (l.compare_time, l.compare_report)
          ((latest_in parse ns l).compare_time, (latest_in parse ns l).compare_report)
  unfolding latest_in
  latest_in-compare [] l = (omega arith, tt, inl (refl, refl))
  latest_in-compare (n ∷ ns) l =
      let l' = latest_of parse n l in
      let r = latest_in parse ns l' in
      Found-cons compare_time n ns (l.compare_time, l.compare_report)
        (l'.compare_time, l'.compare_report) (r.compare_time, r.compare_report)
        (latest_of-compare n l) (latest_in-compare ns l')

  nameless : (n : Text) → parse_report_timestamp parse n ≢ 0 → is_nil n ≡ false
  unfolding parse_report_timestamp name_tokens last_two split
  nameless [] h = absurd (h refl)
  nameless (c ∷ n) h = refl

  -- A name of the greatest time, which is not zero.
  abbrev pub IsNewest : (Text → ℕ) → List Text → Text → Type 0
  IsNewest time names n = In n names × (0 < time n) × All (λ m. time m ≤ time n) names

  All-zero :
      (time : Text → ℕ) (ns : List Text) → All (λ m. time m ≤ 0) ns → All (λ m. time m ≡ 0) ns
  All-zero time [] h = tt
  All-zero time (n ∷ ns) h = (omega (arith, h.0), All-zero time ns h.1)

  dated-is_nil :
      (n : Text) (t : ℕ) → 0 < t → (scan_time n ≡ t) ⊎ (compare_time n ≡ t) → is_nil n ≡ false
  dated-is_nil n t pos h = nameless n (λ z. elim h [ inl e ↦ ground arith | inr e ↦ ground arith ])

  module _ (open_file : Text → Option Text) where
    abbrev pub seen_scan : Text → ScanSeen
    seen_scan n = record {
      report_name = extract_report_name n;
      timestamp = scan_time n;
      file_count = count_report_lines (open_file n);
      duration = 0;
    }

    abbrev pub seen_compare : Text → CompareSeen
    seen_compare n = record {
      timestamp = compare_time n;
      counts = parse_compare_file_stats (open_file n);
    }

    -- An agent that starts knows the newest scan report and the newest compare report of its
    -- directory, by the times in their names, with the counts read from these files; it knows none
    -- exactly when no name of that kind has a time.
    pub init-IsNewest :
        (names : List Text)
        → let known = init_agent_state parse (some names) open_file in
          (((known.0 ≡ none) × All (λ m. scan_time m ≡ 0) names)
            ⊎ ((n : Text) × IsNewest scan_time names n × (known.0 ≡ some (seen_scan n))))
          × (((known.1 ≡ none) × All (λ m. compare_time m ≡ 0) names)
              ⊎ ((n : Text) × IsNewest compare_time names n × (known.1 ≡ some (seen_compare n))))
    unfolding init_agent_state seeded
    init-IsNewest names =
        let r = latest_in parse names none_yet in
        let (_, sle, s) = latest_in-scan names none_yet in
        let (_, cle, c) = latest_in-compare names none_yet in
        (
          elim s [
            | inl (p, q) ↦ inl (
              rw q refl,
              All-zero scan_time names (All-le scan_time r.scan_time 0 names (omega arith) sle),
            )
            | inr (i, e, pos) ↦
                let k = dated-is_nil r.scan_report r.scan_time pos (inl e) in
                inr (
                  r.scan_report,
                  (
                    i,
                    omega arith,
                    All-le scan_time r.scan_time (scan_time r.scan_report) names (omega arith) sle,
                  ),
                  rw k (
                      ap (λ (t : ℕ). some (record (seen_scan r.scan_report) { timestamp = t }))
                        (sym e)),
                )
          ],
          elim c [
            | inl (p, q) ↦ inl (
              rw q refl,
              All-zero compare_time names
                  (All-le compare_time r.compare_time 0 names (omega arith) cle),
            )
            | inr (i, e, pos) ↦
                let k = dated-is_nil r.compare_report r.compare_time pos (inr e) in
                inr (
                  r.compare_report,
                  (
                    i,
                    omega arith,
                    All-le compare_time r.compare_time (compare_time r.compare_report) names
                        (omega arith) cle,
                  ),
                  rw k (
                      ap
                        (λ (t : ℕ). some (record (seen_compare r.compare_report) { timestamp = t }))
                        (sym e)),
                )
          ],
        )

entry-is_nil : (path hash : Text) → is_nil (entry_line (path, hash)) ≡ false
unfolding entry_line
entry-is_nil path [] = refl
entry-is_nil path (c ∷ hash) = refl

filled-entries : (sums : Map Text) → count_filled (map entry_line sums) ≡ length sums
unfolding count_filled
filled-entries [] = refl
filled-entries ((path, hash) ∷ sums) = rw (entry-is_nil path hash) (ap suc (filled-entries sums))

-- The number of files that a restarted agent reads from a saved scan report, all of whose lines fit
-- the scanner and hold no newline, is the number of checksums that were saved.
pub count_of_saved :
    (c : ReportConfig) (time : Text) (sums : Map Text)
    → All (IsLine max_scan_token) (report_lines c time sums)
    → count_report_lines (some (unlines (report_lines c time sums))) ≡ length sums
unfolding count_report_lines
count_of_saved c time sums h =
    rw (scan_lines-unlines max_scan_token (report_lines c time sums) h)
      (unfold report_lines after_first in filled-entries sums)
