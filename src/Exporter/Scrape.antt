-- ===== src/Exporter/Scrape.antt =====
-- exporter.go and agent_metrics.go: the exporter reads what the agent wrote.
use mathlib.Core.List.{Perm}
use mathlib.Core.List.Perm
use ship_grip_fim.Base.{
  List, sym, subst, ◌≡◌, refl, ap, ◌∙◌, [], ◌∷◌, Text, lit, has_prefix, trim_space, trim_left,
  trim_right, is_space, split,
}
use ship_grip_fim.QuickCompare.{ParseTime}
use ship_grip_fim.Metrics.{Snapshot, metric_pairs, pair_lines, agent_metrics_string}
use ship_grip_fim.Exporter.{
  Floats, Times, HostMetrics, zero_metrics, parse_metric_lines, parse_metrics_response,
  collect_from_host, with_jobs, Range, JobMetric, Parsed, job_values,
}
use ship_grip_fim.Exporter.Parsing.{set_pairs, lines-pairs}
use ship_grip_fim.Exporter.Spec.{
  IsReadable, scan_read, compare_read, sched_read, reports_read, host_read,
}
use ship_grip_fim.Exporter.Lines.{metric_pairs-IsPair}
use ship_grip_fim.Exporter.Reading.{start_read, metric_pairs-read}

module _ (fl : Floats) (times : Times fl) (parse : ParseTime) where
  -- The order of the jobs is all that a loop over the map decides.
  jobs_in_order :
      (range : Range fl times)
      → ((js : List (JobMetric fl)) → Perm (range js) js)
      → (p : Parsed fl times)
      → let ranged = with_jobs fl times range p in
        let plain = with_jobs fl times (λ js. js) p in
        (◌≡◌ {A = HostMetrics fl} (record ranged { jobs = [] }) (record plain { jobs = [] }))
        × Perm ranged.jobs plain.jobs
  unfolding with_jobs
  jobs_in_order range o (m, jobs) = (refl, Perm.append_left m.jobs (o (job_values fl times jobs)))

  response-read :
      (s : Snapshot) (m : HostMetrics fl)
      → m.jobs ≡ []
      → IsReadable s
      → with_jobs fl times
          (λ js. js)
          (parse_metric_lines fl times
            (split 10 (agent_metrics_string times.rfc3339 parse s))
            (m, []))
        ≡ sched_read fl times s.history s.jobs (
            compare_read fl times s.last_compare (
              scan_read fl times s.last_scan
                (reports_read fl times parse s.scan_reports (start_read fl times parse s m))))
  response-read s m e h =
      let ps = metric_pairs times.rfc3339 parse s in
      let lines : parse_metric_lines fl times
            (split 10 (agent_metrics_string times.rfc3339 parse s)) (m, [])
          ≡ set_pairs fl times ps (m, []) =
        unfold agent_metrics_string in
        lines-pairs fl times ps (m, []) (metric_pairs-IsPair fl times parse s h) in
      ap (with_jobs fl times (λ js. js)) lines ∙ metric_pairs-read fl times parse s m e h.distinct

  -- An answer that starts like the metrics is no error.
  answer_up :
      (range : Range fl times) (rest : Text) (elapsed : fl.Float)
      → collect_from_host fl times range (b's' ∷ rest) elapsed
        ≡ parse_metrics_response fl times range
            (b's' ∷ rest)
            (record (zero_metrics fl elapsed) { up = fl.of_int 1 })
  unfolding collect_from_host has_prefix lit trim_space trim_left trim_right is_space
  answer_up range rest elapsed = refl

  -- The same values, and the same jobs in any order.
  abbrev pub AreTheSame : HostMetrics fl → HostMetrics fl → Type 0
  AreTheSame m n =
      (◌≡◌ {A = HostMetrics fl} (record m { jobs = [] }) (record n { jobs = [] }))
      × Perm m.jobs n.jobs

  scraped :
      (range : Range fl times) (s : Snapshot) (elapsed : fl.Float)
      → IsReadable s
      → collect_from_host fl times range (agent_metrics_string times.rfc3339 parse s) elapsed
        ≡ with_jobs fl times range (
            parse_metric_lines fl times
              (split 10 (agent_metrics_string times.rfc3339 parse s))
              (record (zero_metrics fl elapsed) { up = fl.of_int 1 }, []))
  unfolding agent_metrics_string pair_lines metric_pairs lit parse_metrics_response
  scraped range s elapsed h = answer_up range _ elapsed

  -- What the exporter makes of the answer that an agent's "metrics" command writes, when the names,
  -- next runs and statuses fit their lines and no two jobs share a name, whatever the order in which
  -- its loop over the map of jobs takes them: the host is up, and every value is that of the agent's
  -- state; the values of a scan, a compare or a latest report that the agent does not know stay zero,
  -- and each scheduled job comes once, in some order, with the start and status of its newest
  -- finished run.
  pub scrape_round_trip :
      (range : Range fl times) (s : Snapshot) (elapsed : fl.Float)
      → ((js : List (JobMetric fl)) → Perm (range js) js)
      → IsReadable s
      → AreTheSame
          (collect_from_host fl times range (agent_metrics_string times.rfc3339 parse s) elapsed)
          (host_read fl times parse s elapsed)
  unfolding start_read
  scrape_round_trip range s elapsed o h =
      let m : HostMetrics fl = record (zero_metrics fl elapsed) { up = fl.of_int 1 } in
      let p =
        parse_metric_lines fl times (split 10 (agent_metrics_string times.rfc3339 parse s))
          (m, []) in
      subst (λ x. AreTheSame x (host_read fl times parse s elapsed))
        (sym (scraped range s elapsed h))
        (subst (λ y. AreTheSame (with_jobs fl times range p) y) (response-read s m refl h)
          (jobs_in_order range o p))
