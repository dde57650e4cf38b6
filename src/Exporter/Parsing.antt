-- ===== src/Exporter/Parsing.antt =====
-- exporter.go: a text of lines "key=value" is read as those keys and values.
use ship_grip_fim.Base.{
  ℕ, Bool, false, ◌≡◌, refl, ap, ◌∙◌, ◌==◌, none, some, List, [], ◌∷◌, ◌++◌, Text, lit, str_eq,
  has_prefix, trim_space, trim_right, trim_left, is_space, split, split_by, split_by-append, any,
  any-append, Map, lookup, insert, arith, All, unlines, trim_space_fixed, trim_right-append,
  str_eq_refl,
}
use ship_grip_fim.Metrics.{pair_lines, job_key}
use ship_grip_fim.Exporter.{
  Floats, Times, HostMetrics, JobMetric, Parsed, cut_last_dot, cut_equals, set_metric, set_pair,
  set_job, set_job_field, job_entry, parse_metric_time, parse_metric_line, parse_metric_lines,
}

abbrev pub is_newline : ℕ → Bool
is_newline d = d == 10

abbrev pub is_equals : ℕ → Bool
is_equals d = d == b'='

-- A key: no '=' and no newline in it, and its first character is no space.
abbrev pub IsKey : Text → Type 0
IsKey [] = ⊥
IsKey (c ∷ k) =
    (is_space c ≡ false) × (any is_equals (c ∷ k) ≡ false) × (any is_newline (c ∷ k) ≡ false)

-- A value: no newline in it, and no space at its end.
abbrev pub IsValue : Text → Type 0
IsValue v = (any is_newline v ≡ false) × (trim_right (b'=' ∷ v) ≡ b'=' ∷ v)

abbrev pub IsPair : Text × Text → Type 0
IsPair (k, v) = IsKey k × IsValue v

cut_equals-append :
    (k v : Text) → any is_equals k ≡ false → cut_equals (k ++ (b'=' ∷ v)) ≡ some (k, v)
unfolding cut_equals
cut_equals-append [] v h = refl
cut_equals-append (c ∷ k) v h = ground (arith, cut_equals-append k v)

pub cut_last_dot-append :
    (n f : Text) → cut_last_dot f ≡ none → cut_last_dot (n ++ (b'.' ∷ f)) ≡ some (n, f)
unfolding cut_last_dot
cut_last_dot-append [] f h = rw h refl
cut_last_dot-append (c ∷ n) f h = rw (cut_last_dot-append n f h) refl

line-plain :
    (k v : Text)
    → any is_newline k ≡ false
    → any is_newline v ≡ false
    → any is_newline (k ++ (b'=' ∷ v)) ≡ false
line-plain k v h i = any-append is_newline k (b'=' ∷ v) ∙ ground arith

module _ (fl : Floats) (times : Times fl) where
  abbrev pub set_pairs : List (Text × Text) → Parsed fl times → Parsed fl times
  set_pairs [] p = p
  set_pairs ((k, v) ∷ ps) p = set_pairs ps (set_metric fl times k v p)

  pub set_pairs-append :
      (ps qs : List (Text × Text)) (p : Parsed fl times)
      → set_pairs (ps ++ qs) p ≡ set_pairs qs (set_pairs ps p)
  set_pairs-append [] qs p = refl
  set_pairs-append ((k, v) ∷ ps) qs p = set_pairs-append ps qs (set_metric fl times k v p)

  line-pair :
      (k v : Text) (p : Parsed fl times)
      → IsPair (k, v)
      → parse_metric_line fl times (k ++ (b'=' ∷ v)) p ≡ set_metric fl times k v p
  unfolding parse_metric_line set_pair
  line-pair [] v p h = absurd h.0
  line-pair (c ∷ k) v p h =
      let t : trim_space ((c ∷ k) ++ (b'=' ∷ v)) ≡ (c ∷ k) ++ (b'=' ∷ v) =
        trim_space_fixed c (k ++ (b'=' ∷ v)) h.0.0
          (trim_right-append (c ∷ k) (b'=' ∷ v) h.1.1 refl) in
      rw (t, cut_equals-append (c ∷ k) v h.0.1) refl

  pub lines-pairs :
      (ps : List (Text × Text)) (p : Parsed fl times)
      → All IsPair ps
      → parse_metric_lines fl times (split 10 (unlines (pair_lines ps))) p ≡ set_pairs ps p
  unfolding parse_metric_lines pair_lines split
  lines-pairs [] p h = unfold parse_metric_line split_by trim_space trim_left trim_right in refl
  lines-pairs (([], v) ∷ ps) p h = absurd h.0.0
  lines-pairs ((c ∷ k, v) ∷ ps) p h =
      rw
        (split_by-append is_newline ((c ∷ k) ++ (b'=' ∷ v)) 10 (unlines (pair_lines ps))
          (line-plain (c ∷ k) v h.0.0.2 h.0.1.0) refl)
        (ap (parse_metric_lines fl times (split 10 (unlines (pair_lines ps))))
            (line-pair (c ∷ k) v p h.0)
          ∙ lines-pairs ps (set_metric fl times (c ∷ k) v p) h.1)

module _ {ℓ} {V : Type ℓ} where
  insert_absent :
      (k : Text) (v : V) (m : Map V) → lookup k m ≡ none → insert k v m ≡ m ++ (k, v) ∷ []
  unfolding insert lookup
  insert_absent k v [] h = refl
  insert_absent k v ((j, w) ∷ m) h = ground (arith, insert_absent k v m)

  insert_last :
      (k : Text) (v w : V) (m : Map V)
      → lookup k m ≡ none
      → insert k v (m ++ (k, w) ∷ []) ≡ m ++ (k, v) ∷ []
  unfolding insert lookup
  insert_last k v w [] h = rw (str_eq_refl k) refl
  insert_last k v w ((j, u) ∷ m) h = ground (arith, insert_last k v w m)

  lookup_last :
      (k : Text) (w : V) (m : Map V) → lookup k m ≡ none → lookup k (m ++ (k, w) ∷ []) ≡ some w
  unfolding lookup
  lookup_last k w [] h = rw (str_eq_refl k) refl
  lookup_last k w ((j, u) ∷ m) h = ground (arith, lookup_last k w m)

module _ (fl : Floats) (times : Times fl) where
  set_metric-job :
      (name field val : Text) (m : HostMetrics fl) (jobs : Map (JobMetric fl))
      → cut_last_dot field ≡ none
      → set_metric fl times (job_key name field) val (m, jobs)
        ≡ (m, set_job fl times val (some (name, field)) jobs)
  unfolding set_metric job_key str_eq lit has_prefix
  set_metric-job name field val m jobs h = rw (cut_last_dot-append name field h) refl

  -- The three lines of a job of which no line came before.
  pub job_lines :
      (name next last status : Text) (m : HostMetrics fl) (jobs : Map (JobMetric fl))
      → lookup name jobs ≡ none
      → set_pairs fl times
          ((job_key name (lit "next"), next)
            ∷ (job_key name (lit "last"), last)
            ∷ (job_key name (lit "status"), status)
            ∷ [])
          (m, jobs)
        ≡ (
          m,
          jobs
              ++ (
                name,
                record {
                  name = name;
                  next_run = parse_metric_time fl times next;
                  last_run = parse_metric_time fl times last;
                  last_status = status;
                },
              )
                ∷ [],
        )
  unfolding set_job set_job_field job_entry lit str_eq cut_last_dot
  job_lines name next last status m jobs h =
      let j0 = job_entry fl times name none in
      let j1 = set_job_field fl times (lit "next") next j0 in
      let j2 = set_job_field fl times (lit "last") last j1 in
      let j3 = set_job_field fl times (lit "status") status j2 in
      rw
        (
          set_metric-job name (lit "next") next m jobs refl,
          h,
          insert_absent name j1 jobs h,
          set_metric-job name (lit "last") last m (jobs ++ (name, j1) ∷ []) refl,
          lookup_last name j1 jobs h,
          insert_last name j2 j1 jobs h,
          set_metric-job name (lit "status") status m (jobs ++ (name, j2) ∷ []) refl,
          lookup_last name j2 jobs h,
          insert_last name j3 j2 jobs h,
        )
        refl
