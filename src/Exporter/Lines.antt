-- ===== src/Exporter/Lines.antt =====
-- agent_metrics.go: the lines of the metrics can be read back.
use ship_grip_fim.Base.{
  false, ◌≡◌, refl, ◌∙◌, ◌==◌, Option, none, some, List, [], ◌∷◌, ◌++◌, Text, lit, trim_right,
  is_space, any, any-append, arith, subst, All, All-append, Option-cases, Bool-cases, inl, inr,
  length,
}
use ship_grip_fim.QuickCompare.{ParseTime, most_recent_report_time}
use ship_grip_fim.Scheduler.History.{JobRun}
use ship_grip_fim.Metrics.{
  ScanSeen, CompareSeen, JobState, Snapshot, b2i, status_text, newest_run, scan_pairs,
  compare_pairs, report_pairs, last_text, newest_status, job_key, job_pairs, sched_pairs,
  metric_pairs,
}
use ship_grip_fim.Exporter.{Floats, Times}
use ship_grip_fim.Exporter.Parsing.{is_newline, is_equals, IsKey, IsValue, IsPair}
use ship_grip_fim.Exporter.Values.{decimal-IsValue, seconds3-IsValue, rfc3339-IsValue}
use ship_grip_fim.Exporter.Spec.{IsJobName, seen, listed, IsReadable}

module _ (fl : Floats) (times : Times fl) (parse : ParseTime) where
  scan_pairs-IsPair :
      (x : Option ScanSeen)
      → All (λ s. IsValue s.report_name) (seen x)
      → All IsPair (scan_pairs times.rfc3339 parse x)
  unfolding scan_pairs lit is_space
  scan_pairs-IsPair none h = tt
  scan_pairs-IsPair (some s) h = (
    ((refl, refl, refl), h.0),
    (
      ((refl, refl, refl), rfc3339-IsValue fl times s.timestamp),
      (
        ((refl, refl, refl), decimal-IsValue s.file_count),
        (((refl, refl, refl), seconds3-IsValue s.duration), tt),
      ),
    ),
  )

  compare_pairs-IsPair : (x : Option CompareSeen) → All IsPair (compare_pairs times.rfc3339 parse x)
  unfolding compare_pairs lit is_space
  compare_pairs-IsPair none = tt
  compare_pairs-IsPair (some c) = (
    ((refl, refl, refl), rfc3339-IsValue fl times c.timestamp),
    (
      ((refl, refl, refl), decimal-IsValue c.counts.changed),
      (
        ((refl, refl, refl), decimal-IsValue c.counts.added),
        (
          ((refl, refl, refl), decimal-IsValue c.counts.missing),
          (((refl, refl, refl), decimal-IsValue c.counts.moved), tt),
        ),
      ),
    ),
  )

  report_pairs-IsPair : (names : List Text) → All IsPair (report_pairs times.rfc3339 parse names)
  unfolding report_pairs lit is_space
  report_pairs-IsPair names =
      let latest = most_recent_report_time parse 0 names in
      (
        ((refl, refl, refl), decimal-IsValue (length names)),
        elim (Bool-cases (latest == 0)) [
          | inl e ↦ rw e tt
          | inr e ↦ rw e (((refl, refl, refl), rfc3339-IsValue fl times latest), tt)
        ],
      )

  job_key-IsKey :
      (n field : Text)
      → IsJobName n
      → any is_equals field ≡ false
      → any is_newline field ≡ false
      → IsKey (job_key n field)
  unfolding job_key lit is_space
  job_key-IsKey n field h e l = (
    refl,
    any-append is_equals n (b'.' ∷ field) ∙ ground arith,
    any-append is_newline n (b'.' ∷ field) ∙ ground arith,
  )

  newest_run-status :
      (name : Text) (history : List JobRun) (r : JobRun)
      → newest_run name history ≡ some r
      → All (λ r. IsValue (status_text r.status)) history
      → IsValue (status_text r.status)
  unfolding newest_run
  newest_run-status name [] r e h = absurd (ground arith)
  newest_run-status name (x ∷ history) r e h = elim (Option-cases (newest_run name history)) [
    | inl n ↦
        let k : x ≡ r = ground arith in subst (λ (z : JobRun). IsValue (status_text z.status)) k h.0
    | inr (r', q) ↦ newest_run-status name history r (ground arith) h.1
  ]

  last_text-IsValue : (r : Option JobRun) → IsValue (last_text times.rfc3339 parse r)
  unfolding last_text lit trim_right is_space
  last_text-IsValue none = (refl, refl)
  last_text-IsValue (some r) = rfc3339-IsValue fl times r.start_time

  newest_status-IsValue :
      (name : Text) (history : List JobRun)
      → All (λ r. IsValue (status_text r.status)) history
      → IsValue (newest_status (newest_run name history))
  unfolding newest_status
  newest_status-IsValue name history h = elim (Option-cases (newest_run name history)) [
    | inl n ↦ rw n (unfold lit trim_right is_space in (refl, refl))
    | inr (r, q) ↦ rw q (newest_run-status name history r q h)
  ]

  job_pairs-IsPair :
      (history : List JobRun) (js : List JobState)
      → All (λ r. IsValue (status_text r.status)) history
      → All (λ j. IsJobName j.name × IsValue j.next) js
      → All IsPair (job_pairs times.rfc3339 parse history js)
  unfolding job_pairs lit
  job_pairs-IsPair history [] h k = tt
  job_pairs-IsPair history (j ∷ js) h k = (
    (job_key-IsKey j.name (lit "next") k.0.0 refl refl, k.0.1),
    (
      (
        job_key-IsKey j.name (lit "last") k.0.0 refl refl,
        last_text-IsValue (newest_run j.name history),
      ),
      (
        (
          job_key-IsKey j.name (lit "status") k.0.0 refl refl,
          newest_status-IsValue j.name history h,
        ),
        job_pairs-IsPair history js h k.1,
      ),
    ),
  )

  sched_pairs-IsPair :
      (history : List JobRun) (x : Option (List JobState))
      → All (λ r. IsValue (status_text r.status)) history
      → All (λ j. IsJobName j.name × IsValue j.next) (listed x)
      → All IsPair (sched_pairs times.rfc3339 parse history x)
  unfolding sched_pairs lit is_space
  sched_pairs-IsPair history none h k = tt
  sched_pairs-IsPair history (some js) h k =
      (((refl, refl, refl), decimal-IsValue (length js)), job_pairs-IsPair history js h k)

  pub metric_pairs-IsPair :
      (s : Snapshot) → IsReadable s → All IsPair (metric_pairs times.rfc3339 parse s)
  unfolding metric_pairs lit is_space
  metric_pairs-IsPair s h = (
    ((refl, refl, refl), decimal-IsValue (b2i s.scan_running)),
    (
      ((refl, refl, refl), decimal-IsValue (b2i s.compare_running)),
      (
        ((refl, refl, refl), decimal-IsValue (b2i s.default_password)),
        let a = report_pairs times.rfc3339 parse s.scan_reports in
            let b = scan_pairs times.rfc3339 parse s.last_scan in
            let c = compare_pairs times.rfc3339 parse s.last_compare in
            let d = sched_pairs times.rfc3339 parse s.history s.jobs in
            All-append IsPair a (b ++ (c ++ d)) (report_pairs-IsPair s.scan_reports) (
              All-append IsPair b (c ++ d) (scan_pairs-IsPair s.last_scan h.scan_name) (
                All-append IsPair c d (compare_pairs-IsPair s.last_compare)
                  (sched_pairs-IsPair s.history s.jobs h.statuses h.job_names))),
      ),
    ),
  )
