-- ===== src/Exporter/Values.antt =====
-- exporter.go: what the values of an agent's metrics are read as.
use ship_grip_fim.Base.{
  ℕ, ◌+◌, ◌/◌, ◌%◌, false, ◌≡◌, refl, sym, ap, ◌∙◌, none, some, [], ◌∷◌, Text, lit, str_eq,
  str_eq→eq, trim_space, trim_right, trim_left, is_space, is_nil, any, any-append, arith, All,
  decimal, decimal-IsDigit, IsDigit, Bool-cases, inl, inr,
}
use ship_grip_fim.Metrics.{seconds3}
use ship_grip_fim.Exporter.{Floats, Times, parse_metric_float, parse_metric_time}
use ship_grip_fim.Exporter.Parsing.{IsValue, is_newline}

trim_right_idem : (s : Text) → trim_right (trim_right s) ≡ trim_right s
unfolding trim_right
trim_right_idem [] = refl
trim_right_idem (c ∷ s) = ground (arith, trim_right_idem s)

pub trimmed-IsValue : (s : Text) → any is_newline s ≡ false → trim_space s ≡ s → IsValue s
unfolding trim_space
trimmed-IsValue s n h =
    let k : trim_right s ≡ s = sym (ap trim_right h) ∙ trim_right_idem (trim_left s) ∙ h in
    (n, unfold trim_right is_space in rw k refl)

-- A text with no space in it.
trim_right_wordy : (s : Text) → any is_space s ≡ false → trim_right s ≡ s
unfolding trim_right
trim_right_wordy [] h = refl
trim_right_wordy (c ∷ s) h = ground (arith, trim_right_wordy s)

pub trim_wordy : (s : Text) → any is_space s ≡ false → trim_space s ≡ s
unfolding trim_space trim_left
trim_wordy [] h = unfold trim_right in refl
trim_wordy (c ∷ s) h =
    let k : is_space c ≡ false = ground arith in rw k (trim_right_wordy (c ∷ s) h)

pub newline_is_space : (s : Text) → any is_space s ≡ false → any is_newline s ≡ false
unfolding is_space
newline_is_space [] h = refl
newline_is_space (c ∷ s) h = ground (arith, newline_is_space s)

digit-no_space : (c : ℕ) → IsDigit c → is_space c ≡ false
unfolding is_space
digit-no_space c h = ground arith

digits-no_space : (s : Text) → All IsDigit s → any is_space s ≡ false
digits-no_space [] h = refl
digits-no_space (c ∷ s) h = ground (arith, digit-no_space c h.0, digits-no_space s h.1)

pub wordy-IsValue : (s : Text) → any is_space s ≡ false → IsValue s
wordy-IsValue s h = trimmed-IsValue s (newline_is_space s h) (trim_wordy s h)

pub decimal-no_space : (n : ℕ) → any is_space (decimal n) ≡ false
decimal-no_space n = digits-no_space (decimal n) (decimal-IsDigit n)

pub decimal-IsValue : (n : ℕ) → IsValue (decimal n)
decimal-IsValue n = wordy-IsValue (decimal n) (decimal-no_space n)

seconds3-no_space : (ms : ℕ) → any is_space (seconds3 ms) ≡ false
unfolding seconds3
seconds3-no_space ms =
    let tail = b'.' ∷ (b'0' + ms / 100 % 10) ∷ (b'0' + ms / 10 % 10) ∷ (b'0' + ms % 10) ∷ [] in
    let a = digit-no_space (b'0' + ms / 100 % 10) (omega arith) in
    let b = digit-no_space (b'0' + ms / 10 % 10) (omega arith) in
    let c = digit-no_space (b'0' + ms % 10) (omega arith) in
    let d : is_space b'.' ≡ false = unfold is_space in refl in
    any-append is_space (decimal (ms / 1000)) tail
    ∙ rw (decimal-no_space (ms / 1000), a, b, c, d) refl

pub seconds3-IsValue : (ms : ℕ) → IsValue (seconds3 ms)
seconds3-IsValue ms = wordy-IsValue (seconds3 ms) (seconds3-no_space ms)

module _ (fl : Floats) where
  pub float-decimal : (n : ℕ) → parse_metric_float fl (decimal n) ≡ fl.of_int n
  unfolding parse_metric_float
  float-decimal n = ap fl.parse (trim_wordy (decimal n) (decimal-no_space n)) ∙ fl.parse-decimal n

  pub float-seconds3 : (ms : ℕ) → parse_metric_float fl (seconds3 ms) ≡ fl.parse (seconds3 ms)
  unfolding parse_metric_float
  float-seconds3 ms = ap fl.parse (trim_wordy (seconds3 ms) (seconds3-no_space ms))

module _ (fl : Floats) (times : Times fl) where
  rfc3339-is_nil : (t : ℕ) → is_nil (times.rfc3339 t) ≡ false
  rfc3339-is_nil t = nonempty (times.rfc3339 t) (times.parse-rfc3339 t)
    where
      nonempty : (s : Text) → times.parse_rfc3339 s ≡ some t → is_nil s ≡ false
      nonempty [] h = absurd (cc (h, times.parse_empty))
      nonempty (c ∷ s) h = refl

  -- A text that does not parse is not the text of a time.
  rfc3339-ne :
      (t : ℕ) (w : Text) → times.parse_rfc3339 w ≡ none → str_eq (times.rfc3339 t) w ≡ false
  rfc3339-ne t w h = elim (Bool-cases (str_eq (times.rfc3339 t) w)) [
    | inl e ↦
        absurd
          (cc (ap times.parse_rfc3339 (str_eq→eq (times.rfc3339 t) w e), h, times.parse-rfc3339 t))
    | inr e ↦ e
  ]

  pub time-rfc3339 : (t : ℕ) → parse_metric_time fl times (times.rfc3339 t) ≡ times.unix t
  unfolding parse_metric_time
  time-rfc3339 t =
      rw
        (
          times.rfc3339-trim t,
          rfc3339-is_nil t,
          rfc3339-ne t (lit "never") times.parse_never,
          rfc3339-ne t (lit "-") times.parse_dash,
          times.parse-rfc3339 t,
        )
        refl

  pub time-never : parse_metric_time fl times (lit "never") ≡ fl.of_int 0
  unfolding parse_metric_time lit str_eq trim_space trim_left trim_right is_space
  time-never = refl

  pub rfc3339-IsValue : (t : ℕ) → IsValue (times.rfc3339 t)
  rfc3339-IsValue t =
      trimmed-IsValue (times.rfc3339 t) (times.rfc3339_line t) (times.rfc3339-trim t)
