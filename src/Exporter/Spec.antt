-- ===== src/Exporter/Spec.antt =====
-- exporter.go and agent_metrics.go: what the exporter is to read of an agent's state.
use ship_grip_fim.Base.{
  false, ◌≡◌, ◌==◌, Option, none, some, List, [], ◌∷◌, Text, str_eq, if◌then◌else◌, any, Map, All,
  length,
}
use ship_grip_fim.QuickCompare.{ParseTime, most_recent_report_time}
use ship_grip_fim.Scheduler.History.{JobRun}
use ship_grip_fim.Metrics.{
  ScanSeen, CompareSeen, JobState, Snapshot, b2i, seconds3, status_text, newest_run, newest_status,
}
use ship_grip_fim.Exporter.{
  Floats, Times, HostMetrics, JobMetric, zero_metrics, parse_metric_time, job_values,
}
use ship_grip_fim.Exporter.Parsing.{is_newline, is_equals, IsValue}

-- The jobs have names of their own.
abbrev pub HaveNames : List JobState → Type 0
HaveNames [] = Unit
HaveNames (j ∷ js) = All (λ k. str_eq j.name k.name ≡ false) js × HaveNames js

abbrev pub IsJobName : Text → Type 0
IsJobName n = (any is_equals n ≡ false) × (any is_newline n ≡ false)

abbrev pub seen {ℓ} : {A : Type ℓ} → Option A → List A
seen none = []
seen (some a) = a ∷ []

abbrev pub listed : Option (List JobState) → List JobState
listed none = []
listed (some js) = js

-- What a line of the metrics can hold: no newline in the name of the report and of the jobs, the
-- times of the next runs and the statuses; no space at the end of the values; and no '=' in the
-- name of a job.
pub record IsReadable (s : Snapshot) : Type 0 where
  pub scan_name : All (λ x. IsValue x.report_name) (seen s.last_scan)
  pub job_names : All (λ j. IsJobName j.name × IsValue j.next) (listed s.jobs)
  pub statuses : All (λ r. IsValue (status_text r.status)) s.history
  pub distinct : HaveNames (listed s.jobs)

module _ (fl : Floats) (times : Times fl) where
  -- What the exporter is to read, from the agent's state.
  abbrev pub scan_read : Option ScanSeen → HostMetrics fl → HostMetrics fl
  scan_read none m = m
  scan_read (some s) m = record m {
    last_scan_time = times.unix s.timestamp;
    last_scan_files = fl.of_int s.file_count;
    last_scan_duration = fl.parse (seconds3 s.duration);
  }

  abbrev pub compare_read : Option CompareSeen → HostMetrics fl → HostMetrics fl
  compare_read none m = m
  compare_read (some c) m = record m {
    last_compare_time = times.unix c.timestamp;
    last_compare_changed = fl.of_int c.counts.changed;
    last_compare_new = fl.of_int c.counts.added;
    last_compare_missing = fl.of_int c.counts.missing;
    last_compare_moved = fl.of_int c.counts.moved;
  }

  abbrev pub run_time : Option JobRun → fl.Float
  run_time none = fl.of_int 0
  run_time (some r) = times.unix r.start_time

  abbrev pub job_read : List JobRun → JobState → JobMetric fl
  job_read history j = record {
    name = j.name;
    next_run = parse_metric_time fl times j.next;
    last_run = run_time (newest_run j.name history);
    last_status = newest_status (newest_run j.name history);
  }

  abbrev pub jobs_read : List JobRun → List JobState → Map (JobMetric fl)
  jobs_read history [] = []
  jobs_read history (j ∷ js) = (j.name, job_read history j) ∷ jobs_read history js

  abbrev pub sched_read : List JobRun → Option (List JobState) → HostMetrics fl → HostMetrics fl
  sched_read history none m = m
  sched_read history (some js) m = record m {
    jobs_total = fl.of_int (length js);
    jobs = job_values fl times (jobs_read history js);
  }

  module _ (parse : ParseTime) where
    abbrev pub reports_read : List Text → HostMetrics fl → HostMetrics fl
    reports_read names m =
        let latest = most_recent_report_time parse 0 names in
        record m {
          reports_total = fl.of_int (length names);
          last_report_time = if latest == 0 then m.last_report_time else times.unix latest;
        }

    abbrev pub host_read : Snapshot → fl.Float → HostMetrics fl
    host_read s elapsed = sched_read s.history s.jobs (
        compare_read s.last_compare (
          scan_read s.last_scan (
            reports_read s.scan_reports (record (zero_metrics fl elapsed) {
              up = fl.of_int 1;
              scan_running = fl.of_int (b2i s.scan_running);
              compare_running = fl.of_int (b2i s.compare_running);
              default_password = fl.of_int (b2i s.default_password);
            }))))
