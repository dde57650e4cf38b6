-- ===== src/Exporter/Reading.antt =====
-- exporter.go: the metrics, key by key, are read as the agent's state.
use ship_grip_fim.Base.{
  false, ◌≡◌, refl, sym, ap, ◌∙◌, ◌==◌, Option, none, some, List, [], ◌∷◌, ◌++◌, append_assoc,
  append-nil, Text, lit, str_eq, Map, lookup, arith, All, decimal, Bool-cases, inl, inr, length,
}
use ship_grip_fim.QuickCompare.{ParseTime, most_recent_report_time}
use ship_grip_fim.Scheduler.History.{JobRun}
use ship_grip_fim.Metrics.{
  ScanSeen, CompareSeen, JobState, Snapshot, b2i, newest_run, scan_pairs, compare_pairs,
  report_pairs, last_text, newest_status, job_pairs, sched_pairs, metric_pairs,
}
use ship_grip_fim.Exporter.{
  Floats, Times, HostMetrics, JobMetric, Parsed, set_metric, parse_metric_time, parse_metric_float,
  with_jobs, job_values,
}
use ship_grip_fim.Exporter.Parsing.{set_pairs, set_pairs-append, job_lines}
use ship_grip_fim.Exporter.Values.{float-decimal, float-seconds3, time-rfc3339, time-never}
use ship_grip_fim.Exporter.Spec.{
  HaveNames, listed, scan_read, compare_read, run_time, job_read, jobs_read, sched_read,
  reports_read,
}

module _ (fl : Floats) (times : Times fl) (parse : ParseTime) where
  last_text-time :
      (r : Option JobRun)
      → parse_metric_time fl times (last_text times.rfc3339 parse r) ≡ run_time fl times r
  unfolding last_text
  last_text-time none = time-never fl times
  last_text-time (some r) = time-rfc3339 fl times r.start_time

  scan_pairs-read :
      (x : Option ScanSeen) (m : HostMetrics fl) (jobs : Map (JobMetric fl))
      → set_pairs fl times (scan_pairs times.rfc3339 parse x) (m, jobs)
        ≡ (scan_read fl times x m, jobs)
  unfolding scan_pairs set_metric lit str_eq
  scan_pairs-read none m jobs = refl
  scan_pairs-read (some s) m jobs =
      rw
        (
          time-rfc3339 fl times s.timestamp,
          float-decimal fl s.file_count,
          float-seconds3 fl s.duration,
        )
        refl

  compare_pairs-read :
      (x : Option CompareSeen) (m : HostMetrics fl) (jobs : Map (JobMetric fl))
      → set_pairs fl times (compare_pairs times.rfc3339 parse x) (m, jobs)
        ≡ (compare_read fl times x m, jobs)
  unfolding compare_pairs set_metric lit str_eq
  compare_pairs-read none m jobs = refl
  compare_pairs-read (some c) m jobs =
      rw
        (
          time-rfc3339 fl times c.timestamp,
          float-decimal fl c.counts.changed,
          float-decimal fl c.counts.added,
          float-decimal fl c.counts.missing,
          float-decimal fl c.counts.moved,
        )
        refl

  report_pairs-read :
      (names : List Text) (m : HostMetrics fl) (jobs : Map (JobMetric fl))
      → set_pairs fl times (report_pairs times.rfc3339 parse names) (m, jobs)
        ≡ (reports_read fl times parse names m, jobs)
  unfolding report_pairs set_metric lit str_eq
  report_pairs-read names m jobs =
      let latest = most_recent_report_time parse 0 names in
      elim (Bool-cases (latest == 0)) [
        | inl e ↦ rw (e, float-decimal fl (length names)) refl
        | inr e ↦ rw (e, float-decimal fl (length names), time-rfc3339 fl times latest) refl
      ]

  lookup-none-append :
      (k j : Text) (v : JobMetric fl) (jobs : Map (JobMetric fl))
      → lookup k jobs ≡ none
      → str_eq j k ≡ false
      → lookup k (jobs ++ (j, v) ∷ []) ≡ none
  unfolding lookup
  lookup-none-append k j v [] h e = rw e refl
  lookup-none-append k j v ((i, w) ∷ jobs) h e = ground (arith, lookup-none-append k j v jobs)

  -- The names of these jobs are not among the jobs that were read.
  abbrev AreNew : Map (JobMetric fl) → List JobState → Type 0
  AreNew jobs js = All (λ j. lookup j.name jobs ≡ none) js

  AreNew-append :
      (j : JobState) (v : JobMetric fl) (jobs : Map (JobMetric fl)) (js : List JobState)
      → AreNew jobs js
      → All (λ k. str_eq j.name k.name ≡ false) js
      → AreNew (jobs ++ (j.name, v) ∷ []) js
  AreNew-append j v jobs [] h d = tt
  AreNew-append j v jobs (k ∷ js) h d =
      (lookup-none-append k.name j.name v jobs h.0 d.0, AreNew-append j v jobs js h.1 d.1)

  job_pairs-read :
      (history : List JobRun) (js : List JobState) (m : HostMetrics fl) (jobs : Map (JobMetric fl))
      → AreNew jobs js
      → HaveNames js
      → set_pairs fl times (job_pairs times.rfc3339 parse history js) (m, jobs)
        ≡ (m, jobs ++ jobs_read fl times history js)
  unfolding job_pairs
  job_pairs-read history [] m jobs n d = ap (λ r. (m, r)) (sym (append-nil jobs))
  job_pairs-read history (j ∷ js) m jobs n d =
      let last = last_text times.rfc3339 parse (newest_run j.name history) in
      let status = newest_status (newest_run j.name history) in
      let one = job_lines fl times j.name j.next last status m jobs n.0 in
      let jobs' = jobs ++ (j.name, job_read fl times history j) ∷ [] in
      let entry : fl.Float → JobMetric fl = λ time. record {
        name = j.name;
        next_run = parse_metric_time fl times j.next;
        last_run = time;
        last_status = status;
      } in
      let two : ◌≡◌ {A = Parsed fl times}
          (m, jobs ++ (j.name, entry (parse_metric_time fl times last)) ∷ []) (m, jobs') =
        ap (λ t. (m, jobs ++ (j.name, entry t) ∷ []))
          (last_text-time (newest_run j.name history)) in
      ap (set_pairs fl times (job_pairs times.rfc3339 parse history js)) (one ∙ two)
      ∙ job_pairs-read history js m jobs'
          (AreNew-append j (job_read fl times history j) jobs js n.1 d.0) d.1
      ∙ ap (λ r. (m, r))
          (append_assoc jobs ((j.name, job_read fl times history j) ∷ [])
            (jobs_read fl times history js))

  All_nil : (js : List JobState) → AreNew [] js
  unfolding lookup
  All_nil [] = tt
  All_nil (j ∷ js) = (refl, All_nil js)

  sched_pairs-read :
      (history : List JobRun) (x : Option (List JobState)) (m : HostMetrics fl)
      → m.jobs ≡ []
      → HaveNames (listed x)
      → with_jobs fl times
          (λ js. js)
          (set_pairs fl times (sched_pairs times.rfc3339 parse history x) (m, []))
        ≡ sched_read fl times history x m
  unfolding sched_pairs with_jobs set_metric lit str_eq
  sched_pairs-read history none m e d = ap (λ l. record m { jobs = l }) (append-nil m.jobs)
  sched_pairs-read history (some js) m e d =
      let m' : HostMetrics fl = record m {
        jobs_total = parse_metric_float fl (decimal (length js));
      } in
      let values = job_values fl times (jobs_read fl times history js) in
      ap (with_jobs fl times (λ js. js)) (job_pairs-read history js m' [] (All_nil js) d)
      ∙ ap (λ t. record m { jobs_total = t; jobs = m.jobs ++ values })
          (float-decimal fl (length js))
      ∙ ap (λ l. record m { jobs_total = fl.of_int (length js); jobs = l ++ values }) e

  jobs_kept :
      (x : Option ScanSeen) (y : Option CompareSeen) (m : HostMetrics fl)
      → (compare_read fl times y (scan_read fl times x m)).jobs ≡ m.jobs
  jobs_kept none none m = refl
  jobs_kept none (some c) m = refl
  jobs_kept (some s) none m = refl
  jobs_kept (some s) (some c) m = refl

  unfoldable pub start_read : Snapshot → HostMetrics fl → HostMetrics fl
  start_read s m = record m {
    scan_running = fl.of_int (b2i s.scan_running);
    compare_running = fl.of_int (b2i s.compare_running);
    default_password = fl.of_int (b2i s.default_password);
  }

  started :
      (s : Snapshot) (m : HostMetrics fl) (rest : List (Text × Text))
      → set_pairs fl times
          ((lit "scan_running", decimal (b2i s.scan_running))
            ∷ (lit "compare_running", decimal (b2i s.compare_running))
            ∷ (lit "default_password", decimal (b2i s.default_password))
            ∷ rest)
          (m, [])
        ≡ set_pairs fl times rest (start_read s m, [])
  unfolding set_metric lit str_eq start_read
  started s m rest =
      rw
        (
          float-decimal fl (b2i s.scan_running),
          float-decimal fl (b2i s.compare_running),
          float-decimal fl (b2i s.default_password),
        )
        refl

  pub metric_pairs-read :
      (s : Snapshot) (m : HostMetrics fl)
      → m.jobs ≡ []
      → HaveNames (listed s.jobs)
      → with_jobs fl times
          (λ js. js)
          (set_pairs fl times (metric_pairs times.rfc3339 parse s) (m, []))
        ≡ sched_read fl times s.history s.jobs (
            compare_read fl times s.last_compare (
              scan_read fl times s.last_scan
                (reports_read fl times parse s.scan_reports (start_read s m))))
  unfolding metric_pairs start_read
  metric_pairs-read s m e d =
      let a = report_pairs times.rfc3339 parse s.scan_reports in
      let b = scan_pairs times.rfc3339 parse s.last_scan in
      let c = compare_pairs times.rfc3339 parse s.last_compare in
      let z = sched_pairs times.rfc3339 parse s.history s.jobs in
      let m1 = start_read s m in
      let m2 = reports_read fl times parse s.scan_reports m1 in
      let m3 = scan_read fl times s.last_scan m2 in
      let m4 = compare_read fl times s.last_compare m3 in
      let path : ◌≡◌ {A = Parsed fl times}
          (set_pairs fl times (metric_pairs times.rfc3339 parse s) (m, []))
          (set_pairs fl times z (m4, [])) =
        started s m (a ++ (b ++ (c ++ z)))
        ∙ set_pairs-append fl times a (b ++ (c ++ z)) (m1, [])
        ∙ ap (set_pairs fl times (b ++ (c ++ z))) (report_pairs-read s.scan_reports m1 [])
        ∙ set_pairs-append fl times b (c ++ z) (m2, [])
        ∙ ap (set_pairs fl times (c ++ z)) (scan_pairs-read s.last_scan m2 [])
        ∙ set_pairs-append fl times c z (m3, [])
        ∙ ap (set_pairs fl times z) (compare_pairs-read s.last_compare m3 []) in
      ap (with_jobs fl times (λ js. js)) path
      ∙ sched_pairs-read s.history s.jobs m4 (jobs_kept s.last_scan s.last_compare m2 ∙ e) d
