-- ===== src/Exporter/Samples.antt =====
-- exporter.go: the samples of a host that does not answer, and jobs whose lines are not read.
use ship_grip_fim.Base.{
  ℕ, Bool, true, false, ◌||◌, ◌≡◌, refl, ap, ◌∙◌, ◌==◌, none, some, [], ◌∷◌, ◌++◌, append_assoc,
  Text, lit, str_eq, has_prefix, trim_space, trim_left, trim_right, is_space, is_nil, any, arith,
}
use ship_grip_fim.Metrics.{job_key}
use ship_grip_fim.Exporter.{
  Floats, Times, Parsed, cut_equals, cut_last_dot, set_metric, set_pair, set_job, parse_metric_line,
  Range, collect_from_host, gauge, host_samples,
}
use ship_grip_fim.Exporter.Parsing.{is_equals}

abbrev is_dot : ℕ → Bool
is_dot d = d == b'.'

no_dot : (s : Text) → any is_dot s ≡ false → cut_last_dot s ≡ none
unfolding cut_last_dot
no_dot [] h = refl
no_dot (c ∷ s) h = ground (arith, no_dot s)

-- A character that is no space stays, and what stands before it.
trim_right_keeps :
    (s : Text) (c : ℕ) (t : Text)
    → is_space c ≡ false
    → trim_right (s ++ (c ∷ t)) ≡ s ++ (c ∷ trim_right t)
unfolding trim_right
trim_right_keeps [] c t h = rw h refl
trim_right_keeps (d ∷ []) c t h = ground (arith, trim_right_keeps [] c t h)
trim_right_keeps (d ∷ e ∷ s) c t h = ground (arith, trim_right_keeps (e ∷ s) c t h)

cut_first_equals :
    (k v : Text) → any is_equals k ≡ false → cut_equals (k ++ (b'=' ∷ v)) ≡ some (k, v)
unfolding cut_equals
cut_first_equals [] v h = refl
cut_first_equals (c ∷ k) v h = ground (arith, cut_first_equals k v)

module _ (fl : Floats) (times : Times fl) where
  -- A host whose answer is an error or blank gives one sample: `fim_up` is 0, and no other value of
  -- it is reported.
  pub down_sample :
      (range : Range fl times) (alias raw : Text) (elapsed : fl.Float)
      → has_prefix (lit "ERROR") raw || is_nil (trim_space raw) ≡ true
      → host_samples fl times alias (collect_from_host fl times range raw elapsed)
        ≡ record { family = lit "fim_up"; labels = alias ∷ []; value = fl.of_int 0 } ∷ []
  unfolding collect_from_host host_samples gauge
  down_sample range alias raw elapsed h =
      let z : fl.is_zero (fl.of_int 0) ≡ true = fl.is_zero-of_int 0 in rw (h, z) refl

  unread_key :
      (a val : Text) (p : Parsed fl times)
      → any is_dot a ≡ false
      → set_metric fl times (lit "job." ++ a) val p ≡ p
  unfolding set_metric set_job str_eq lit has_prefix
  unread_key a val (m, jobs) d = rw (no_dot a d) refl

  unread_line :
      (a rest : Text) (p : Parsed fl times)
      → any is_equals a ≡ false
      → any is_dot a ≡ false
      → parse_metric_line fl times ((lit "job." ++ a) ++ (b'=' ∷ rest)) p ≡ p
  unfolding parse_metric_line set_pair
  unread_line a rest p h d =
      let key = lit "job." ++ a in
      let k : any is_equals key ≡ false = unfold lit in h in
      let t : trim_space (key ++ (b'=' ∷ rest)) ≡ key ++ (b'=' ∷ trim_right rest) =
        unfold trim_space trim_left lit is_space in
        trim_right_keeps key b'=' rest (unfold is_space in refl) in
      let n : is_nil (key ++ (b'=' ∷ trim_right rest)) ≡ false = unfold lit in refl in
      rw (t, n, cut_first_equals key (trim_right rest) k) (unread_key a (trim_right rest) p d)

  -- The key of a line ends at the first '=', so a line of a job whose name has one, and no dot before
  -- it, is read as none of a job: nothing of that job is reported.
  pub equals_job_lost :
      (a b field val : Text) (p : Parsed fl times)
      → any is_equals a ≡ false
      → any is_dot a ≡ false
      → parse_metric_line fl times (job_key (a ++ (b'=' ∷ b)) field ++ (b'=' ∷ val)) p ≡ p
  equals_job_lost a b field val p h d =
      let rest = b ++ ((b'.' ∷ field) ++ (b'=' ∷ val)) in
      let e : job_key (a ++ (b'=' ∷ b)) field ++ (b'=' ∷ val) ≡ (lit "job." ++ a) ++ (b'=' ∷ rest) =
        unfold job_key in simp append_assoc in
      ap (λ l. parse_metric_line fl times l p) e ∙ unread_line a rest p h d
