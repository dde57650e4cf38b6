-- ===== src/Tests/Metrics.antt =====
-- The metrics of an agent with one job, read with toy numbers and times.
use mathlib.Core.List.{reverse, reverse_perm}
use ship_grip_fim.Base.{
  ℕ, true, false, ◌≡◌, refl, ap, ◌==◌, Option, none, some, List, [], ◌∷◌, ◌++◌, Text, lit,
  if◌then◌else◌, ltb, any, All, decimal, read_digits, read-decimal, trim_space, trim_right,
  is_space, ◌⊎◌,
}
use ship_grip_fim.QuickCompare.{ParseTime}
use ship_grip_fim.Scheduler.History.{complete, running}
use ship_grip_fim.Metrics.{Snapshot, status_text, agent_metrics_string, init_agent_state, job_key}
use ship_grip_fim.Metrics.Seed.{
  scan_time, compare_time, IsNewest, seen_scan, seen_compare, init-IsNewest,
}
use ship_grip_fim.Exporter.{
  Floats, Times, Range, Parsed, zero_metrics, collect_from_host, parse_metric_line,
}
use ship_grip_fim.Exporter.Values.{trim_wordy, newline_is_space, decimal-no_space}
use ship_grip_fim.Exporter.Spec.{IsReadable, host_read}
use ship_grip_fim.Exporter.Scrape.{AreTheSame, scrape_round_trip}
use ship_grip_fim.Exporter.Samples.{equals_job_lost}

abbrev toy_floats : Floats
toy_floats = record {
  Float = ℕ;
  of_int = λ n. n;
  parse = λ s. read_digits 0 s;
  is_zero = λ n. n == 0;
  is_positive = λ n. ltb 0 n;
  parse-decimal = λ n. read-decimal n;
  is_zero-of_int = λ n. refl;
  is_positive-of_int = λ n. refl;
}

-- A time is written as a T and its number.
abbrev toy_rfc3339 : ℕ → Text
toy_rfc3339 t = b'T' ∷ decimal t

abbrev toy_parse_time : Text → Option ℕ
toy_parse_time [] = none
toy_parse_time (c ∷ s) = if c == b'T' then some (read_digits 0 s) else none

toy_time-no_space : (t : ℕ) → any is_space (toy_rfc3339 t) ≡ false
toy_time-no_space t =
    let k : is_space b'T' ≡ false = unfold is_space in refl in rw k (decimal-no_space t)

toy_time_line : (t : ℕ) → any (λ d. d == 10) (toy_rfc3339 t) ≡ false
toy_time_line t = newline_is_space (toy_rfc3339 t) (toy_time-no_space t)

toy_time-trim : (t : ℕ) → trim_space (toy_rfc3339 t) ≡ toy_rfc3339 t
toy_time-trim t = trim_wordy (toy_rfc3339 t) (toy_time-no_space t)

toy_never : toy_parse_time (lit "never") ≡ none
unfolding lit
toy_never = refl

toy_dash : toy_parse_time (lit "-") ≡ none
unfolding lit
toy_dash = refl

abbrev toy_times : Times toy_floats
toy_times = record {
  rfc3339 = toy_rfc3339;
  unix = λ t. t;
  parse_rfc3339 = toy_parse_time;
  parse_local = λ s. none;
  parse-rfc3339 = λ t. ap some (read-decimal t);
  parse_never = toy_never;
  parse_dash = toy_dash;
  parse_empty = refl;
  rfc3339_line = toy_time_line;
  rfc3339-trim = toy_time-trim;
}

-- Two words with a time between them.
abbrev toy_layout : ParseTime
toy_layout layout s = some 7

abbrev busy_agent : Snapshot
busy_agent = record {
  scan_running = true;
  compare_running = false;
  default_password = true;
  scan_reports = lit "daily_d_t" ∷ [];
  last_scan =
      some (record { report_name = lit "daily"; timestamp = 7; file_count = 3; duration = 1500 });
  last_compare = some (record {
    timestamp = 8;
    counts = record { changed = 1; added = 2; missing = 0; moved = 4 };
  });
  jobs = some (record { name = lit "night"; next = lit "-" } ∷ []);
  history =
      record { name = lit "night"; start_time = 5; end_time = some 6; status = complete }
      ∷ record { name = lit "night"; start_time = 9; end_time = none; status = running }
      ∷ [];
}

busy_agent-IsReadable : IsReadable busy_agent
unfolding lit trim_right is_space status_text
busy_agent-IsReadable = record {
  scan_name = ((refl, refl), tt);
  job_names = (((refl, refl), (refl, refl)), tt);
  statuses = ((refl, refl), ((refl, refl), tt));
  distinct = (tt, tt);
}

-- The last job comes first.
abbrev backwards : Range toy_floats toy_times
backwards = reverse

scrape_round_trip_example :
    AreTheSame toy_floats toy_times toy_layout
      (collect_from_host toy_floats toy_times backwards
        (agent_metrics_string toy_rfc3339 toy_layout busy_agent)
        2)
      (host_read toy_floats toy_times toy_layout busy_agent 2)
scrape_round_trip_example =
    scrape_round_trip toy_floats toy_times toy_layout backwards busy_agent 2 reverse_perm
      busy_agent-IsReadable

abbrev refused : Text
refused = lit "ERROR - connection refused"

abbrev no_values : Parsed toy_floats toy_times
no_values = (zero_metrics toy_floats 0, [])

equals_job_lost_example :
    parse_metric_line toy_floats toy_times
      (job_key (lit "a" ++ (b'=' ∷ lit "b")) (lit "next") ++ (b'=' ∷ lit "-"))
      no_values
    ≡ no_values
equals_job_lost_example =
    equals_job_lost toy_floats toy_times (lit "a") (lit "b") (lit "next") (lit "-") no_values
      (unfold lit in refl) (unfold lit in refl)

abbrev toy_open : Text → Option Text
toy_open n = some (lit "header")

abbrev one_report : List Text
one_report = lit "daily_d_t" ∷ []

init-IsNewest_example :
    let known = init_agent_state toy_layout (some one_report) toy_open in
    (((known.0 ≡ none) × All (λ m. scan_time toy_layout m ≡ 0) one_report)
      ⊎ ((n : Text) × IsNewest toy_layout (scan_time toy_layout) one_report n
          × (known.0 ≡ some (seen_scan toy_layout toy_open n))))
    × (((known.1 ≡ none) × All (λ m. compare_time toy_layout m ≡ 0) one_report)
        ⊎ ((n : Text) × IsNewest toy_layout (compare_time toy_layout) one_report n
            × (known.1 ≡ some (seen_compare toy_layout toy_open n))))
init-IsNewest_example = init-IsNewest toy_layout toy_open one_report
