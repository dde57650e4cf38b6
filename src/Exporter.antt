-- ===== src/Exporter.antt =====
-- exporter.go: an agent's metrics text read back, and the samples of a scrape. Floating-point numbers
-- and the formats of times are the parameters `Floats` and `Times`; the samples are what Collect sends
-- to the Prometheus library.
pub mod Parsing
pub mod Values
pub mod Spec
pub mod Lines
pub mod Reading
pub mod Scrape
pub mod Samples
use ship_grip_fim.Base.{
  ℕ, Bool, true, false, ◌||◌, ◌≡◌, not, ◌==◌, Option, none, some, List, [], ◌∷◌, ◌++◌, Text, lit,
  str_eq, if◌then◌else◌, has_prefix, any, trim_space, is_nil, split, drop, Map, lookup, insert, map,
  decimal, ltb, Result, ok, err,
}
use ship_grip_fim.Hosts.{RemoteHost, HostsError}

-- float64: `of_int` converts a number of at least 0, `parse` is strconv.ParseFloat with its error
-- ignored, which reads decimal digits as the nearest value.
pub record Floats : Type 1 where
  pub Float : Type 0
  pub of_int : ℕ → Float
  pub parse : Text → Float
  pub is_zero : Float → Bool
  pub is_positive : Float → Bool
  pub parse-decimal : (n : ℕ) → parse (decimal n) ≡ of_int n
  pub is_zero-of_int : (n : ℕ) → is_zero (of_int n) ≡ (n == 0)
  pub is_positive-of_int : (n : ℕ) → is_positive (of_int n) ≡ ltb 0 n

-- The last `.` of a text cuts it in two.
unfoldable pub cut_last_dot : Text → Option (Text × Text)
cut_last_dot [] = none
cut_last_dot (c ∷ s) =
    let later = cut_last_dot s in
    elim later [ some (a, b) ↦ some (c ∷ a, b) | none ↦ if c == b'.' then some ([], s) else none ]

-- The first `=`.
unfoldable pub cut_equals : Text → Option (Text × Text)
cut_equals [] = none
cut_equals (c ∷ s) =
    let later = cut_equals s in
    if c == b'=' then some ([], s) else elim later [ none ↦ none | some (a, b) ↦ some (c ∷ a, b) ]

module _ (fl : Floats) where
  open fl use {Float, of_int, parse, is_zero, is_positive}

  -- time.Parse with RFC 3339 and time.ParseInLocation with the layout of the scheduler, as Unix
  -- seconds.
  pub record Times : Type 0 where
    pub rfc3339 : ℕ → Text
    pub unix : ℕ → Float
    pub parse_rfc3339 : Text → Option ℕ
    pub parse_local : Text → Option ℕ
    pub parse-rfc3339 : (t : ℕ) → parse_rfc3339 (rfc3339 t) ≡ some t
    pub parse_never : parse_rfc3339 (lit "never") ≡ none
    pub parse_dash : parse_rfc3339 (lit "-") ≡ none
    pub parse_empty : parse_rfc3339 [] ≡ none
    pub rfc3339_line : (t : ℕ) → any (λ d. d == 10) (rfc3339 t) ≡ false
    pub rfc3339-trim : (t : ℕ) → trim_space (rfc3339 t) ≡ rfc3339 t

  pub record JobMetric : Type 0 where
    pub name : Text
    pub next_run : Float
    pub last_run : Float
    pub last_status : Text

  pub record HostMetrics : Type 0 where
    pub up : Float
    pub scan_running : Float
    pub compare_running : Float
    pub reports_total : Float
    pub last_report_time : Float
    pub last_scan_time : Float
    pub last_scan_files : Float
    pub last_scan_duration : Float
    pub last_compare_time : Float
    pub last_compare_changed : Float
    pub last_compare_new : Float
    pub last_compare_missing : Float
    pub last_compare_moved : Float
    pub jobs_total : Float
    pub jobs : List JobMetric
    pub collect_duration : Float
    pub default_password : Float

  abbrev pub zero_metrics : Float → HostMetrics
  zero_metrics elapsed = record {
    up = of_int 0;
    scan_running = of_int 0;
    compare_running = of_int 0;
    reports_total = of_int 0;
    last_report_time = of_int 0;
    last_scan_time = of_int 0;
    last_scan_files = of_int 0;
    last_scan_duration = of_int 0;
    last_compare_time = of_int 0;
    last_compare_changed = of_int 0;
    last_compare_new = of_int 0;
    last_compare_missing = of_int 0;
    last_compare_moved = of_int 0;
    jobs_total = of_int 0;
    jobs = [];
    collect_duration = elapsed;
    default_password = of_int 0;
  }

  unfoldable pub parse_metric_float : Text → Float
  parse_metric_float s = parse (trim_space s)

  module _ (times : Times) where
    unfoldable pub parse_metric_time : Text → Float
    parse_metric_time raw =
        let s = trim_space raw in
        if is_nil s || str_eq s (lit "never") || str_eq s (lit "-")
        then of_int 0
        else elim (times.parse_rfc3339 s) [
          | some t ↦ times.unix t
          | none ↦ elim (times.parse_local s) [ some t ↦ times.unix t | none ↦ of_int 0 ]
        ]

    -- The metrics of the host and, by name, those of its jobs.
    abbrev pub Parsed : Type 0
    Parsed = HostMetrics × Map JobMetric

    unfoldable pub set_job_field : Text → Text → JobMetric → JobMetric
    unfolding parse_metric_time
    set_job_field field val j =
        if str_eq field (lit "next")
        then record j { next_run = parse_metric_time val }
        else if str_eq field (lit "last")
        then record j { last_run = parse_metric_time val }
        else if str_eq field (lit "status")
        then record j { last_status = val }
        else j

    unfoldable pub job_entry : Text → Option JobMetric → JobMetric
    job_entry name (some j) = j
    job_entry name none = record {
      name = name;
      next_run = of_int 0;
      last_run = of_int 0;
      last_status = [];
    }

    unfoldable pub set_job : Text → Option (Text × Text) → Map JobMetric → Map JobMetric
    unfolding set_job_field job_entry
    set_job val none jobs = jobs
    set_job val (some (name, field)) jobs =
        insert name (set_job_field field val (job_entry name (lookup name jobs))) jobs

    unfoldable pub set_metric : Text → Text → Parsed → Parsed
    unfolding set_job cut_last_dot parse_metric_float parse_metric_time
    set_metric key val (m, jobs) =
        if str_eq key (lit "scan_running")
        then (record m { scan_running = parse_metric_float val }, jobs)
        else if str_eq key (lit "compare_running")
        then (record m { compare_running = parse_metric_float val }, jobs)
        else if str_eq key (lit "reports_total")
        then (record m { reports_total = parse_metric_float val }, jobs)
        else if str_eq key (lit "last_report_time")
        then (record m { last_report_time = parse_metric_time val }, jobs)
        else if str_eq key (lit "last_scan_time")
        then (record m { last_scan_time = parse_metric_time val }, jobs)
        else if str_eq key (lit "last_scan_files")
        then (record m { last_scan_files = parse_metric_float val }, jobs)
        else if str_eq key (lit "last_scan_duration")
        then (record m { last_scan_duration = parse_metric_float val }, jobs)
        else if str_eq key (lit "last_compare_time")
        then (record m { last_compare_time = parse_metric_time val }, jobs)
        else if str_eq key (lit "last_compare_changed")
        then (record m { last_compare_changed = parse_metric_float val }, jobs)
        else if str_eq key (lit "last_compare_new")
        then (record m { last_compare_new = parse_metric_float val }, jobs)
        else if str_eq key (lit "last_compare_missing")
        then (record m { last_compare_missing = parse_metric_float val }, jobs)
        else if str_eq key (lit "last_compare_moved")
        then (record m { last_compare_moved = parse_metric_float val }, jobs)
        else if str_eq key (lit "jobs_total")
        then (record m { jobs_total = parse_metric_float val }, jobs)
        else if str_eq key (lit "default_password")
        then (record m { default_password = parse_metric_float val }, jobs)
        else if str_eq key (lit "last_scan_report")
        then (m, jobs)
        else if has_prefix (lit "job.") key
        then (m, set_job val (cut_last_dot (drop 4 key)) jobs)
        else (m, jobs)

    unfoldable pub set_pair : Option (Text × Text) → Parsed → Parsed
    set_pair none p = p
    set_pair (some (key, val)) p = set_metric key val p

    unfoldable pub parse_metric_line : Text → Parsed → Parsed
    unfolding set_pair cut_equals
    parse_metric_line raw p =
        let line = trim_space raw in if is_nil line then p else set_pair (cut_equals line) p

    unfoldable pub parse_metric_lines : List Text → Parsed → Parsed
    unfolding parse_metric_line
    parse_metric_lines [] p = p
    parse_metric_lines (l ∷ ls) p = parse_metric_lines ls (parse_metric_line l p)

    abbrev pub job_values : Map JobMetric → List JobMetric
    job_values [] = []
    job_values ((name, j) ∷ m) = j ∷ job_values m

    -- The order in which a loop over the map of jobs gives them, which Go leaves open.
    abbrev pub Range : Type 0
    Range = List JobMetric → List JobMetric

    unfoldable pub with_jobs : Range → Parsed → HostMetrics
    with_jobs range (m, jobs) = record m { jobs = m.jobs ++ range (job_values jobs) }

    unfoldable pub parse_metrics_response : Range → Text → HostMetrics → HostMetrics
    unfolding with_jobs parse_metric_lines
    parse_metrics_response range raw m = with_jobs range (parse_metric_lines (split 10 raw) (m, []))

    -- `collectFromHost`, of the answer to "metrics" and the time that it took.
    unfoldable pub collect_from_host : Range → Text → Float → HostMetrics
    unfolding parse_metrics_response
    collect_from_host range raw elapsed =
        if has_prefix (lit "ERROR") raw || is_nil (trim_space raw)
        then zero_metrics elapsed
        else parse_metrics_response range raw (record (zero_metrics elapsed) { up = of_int 1 })

    -- A gauge value with its labels.
    pub record Sample : Type 0 where
      pub family : Text
      pub labels : List Text
      pub value : Float

    unfoldable pub gauge : Text → Text → Float → Sample
    gauge alias family v = record { family = family; labels = alias ∷ []; value = v }

    unfoldable pub job_samples : Text → List JobMetric → List Sample
    job_samples alias [] = []
    job_samples alias (j ∷ js) =
        record {
          family = lit "fim_job_next_run_time_seconds";
          labels = alias ∷ j.name ∷ [];
          value = j.next_run;
        }
        ∷ record {
          family = lit "fim_job_last_run_time_seconds";
          labels = alias ∷ j.name ∷ [];
          value = j.last_run;
        }
        ∷ record {
          family = lit "fim_job_last_run_ok";
          labels = alias ∷ j.name ∷ [];
          value = if str_eq j.last_status (lit "complete") then of_int 1 else of_int 0;
        }
        ∷ job_samples alias js

    -- The samples of one host.
    unfoldable pub host_samples : Text → HostMetrics → List Sample
    unfolding gauge job_samples
    host_samples alias m =
        gauge alias (lit "fim_up") m.up
        ∷ (if is_zero m.up
            then []
            else gauge alias (lit "fim_scan_running") m.scan_running
              ∷ gauge alias (lit "fim_compare_running") m.compare_running
              ∷ gauge alias (lit "fim_reports_total") m.reports_total
              ∷ ((if is_positive m.last_report_time
                    then gauge alias (lit "fim_last_report_time_seconds") m.last_report_time ∷ []
                    else [])
                  ++ ((if is_positive m.last_scan_time
                        then gauge alias (lit "fim_last_scan_time_seconds") m.last_scan_time
                          ∷ gauge alias (lit "fim_last_scan_files") m.last_scan_files
                          ∷ gauge alias (lit "fim_last_scan_duration_seconds") m.last_scan_duration
                          ∷ []
                        else [])
                      ++ ((if is_positive m.last_compare_time
                            then gauge alias (lit "fim_last_compare_time_seconds")
                                m.last_compare_time
                              ∷ gauge alias (lit "fim_last_compare_changed_total")
                                  m.last_compare_changed
                              ∷ gauge alias (lit "fim_last_compare_new_total") m.last_compare_new
                              ∷ gauge alias (lit "fim_last_compare_missing_total")
                                  m.last_compare_missing
                              ∷ gauge alias (lit "fim_last_compare_moved_total")
                                  m.last_compare_moved
                              ∷ []
                            else [])
                          ++ (gauge alias (lit "fim_jobs_total") m.jobs_total
                              ∷ (job_samples alias m.jobs
                                  ++ gauge alias (lit "fim_collect_duration_seconds")
                                      m.collect_duration
                                    ∷ gauge alias (lit "fim_default_password") m.default_password
                                    ∷ []))))))

    -- `Collect`: `answer` gives the answer of each host and the time it took, and `range` the order of
    -- its jobs. The goroutines write to slots of their own, so the hosts come in the order of the file.
    unfoldable pub samples_of :
        (RemoteHost → Range) → (RemoteHost → Text × Float) → List RemoteHost → List Sample
    unfolding host_samples collect_from_host
    samples_of range answer [] = []
    samples_of range answer (h ∷ hs) =
        host_samples h.alias (collect_from_host (range h) (answer h).0 (answer h).1)
        ++ samples_of range answer hs

    unfoldable pub collect :
        (RemoteHost → Range)
        → (RemoteHost → Text × Float)
        → Result HostsError (List RemoteHost)
        → List Sample
    unfolding samples_of
    collect range answer (err e) = []
    collect range answer (ok hosts) = samples_of range answer hosts
