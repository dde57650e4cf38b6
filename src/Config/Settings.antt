-- ===== src/Config/Settings.antt =====
-- integrity.go: where the value of a setting comes from.
use ship_grip_fim.Base.{
  true, false, ◌≡◌, ◌≢◌, refl, ap, ◌∙◌, ◌==◌, Option, none, some, List, [], ◌∷◌, ◌++◌, Text, lit,
  arith, any, All, has_prefix, drop, length, str_eq_iff, str_eq_refl, split, split_by-append,
  unlines, append_assoc, Read,
}
use ship_grip_fim.Config.{
  up_to_last_quote, setting_prefix, line_setting, lines_setting, file_setting, text_setting,
  not_set, resolve, env_or, config_text,
}

drop-append : (p s : Text) → drop (length p) (p ++ s) ≡ s
drop-append [] s = refl
drop-append (c ∷ p) s = drop-append p s

prefix-append : (p s : Text) → has_prefix p (p ++ s) ≡ true
unfolding has_prefix
prefix-append [] s = refl
prefix-append (c ∷ p) s = ground (arith, prefix-append p s)

quote-none : (s : Text) → any (λ d. d == b'"') s ≡ false → up_to_last_quote s ≡ none
unfolding up_to_last_quote
quote-none [] h = refl
quote-none (c ∷ s) h = ground (arith, quote-none s)

quote-append :
    (v rest : Text)
    → any (λ d. d == b'"') rest ≡ false
    → up_to_last_quote (v ++ (b'"' ∷ rest)) ≡ some v
unfolding up_to_last_quote
quote-append [] rest h = rw (quote-none rest h) refl
quote-append (c ∷ v) rest h = rw (quote-append v rest h) refl

abbrev pub setting_line : Text → Text → Text → Text
setting_line key v rest = setting_prefix key ++ (v ++ (b'"' ∷ rest))

line_setting_lem :
    (key v rest : Text)
    → any (λ d. d == b'"') rest ≡ false
    → line_setting key (setting_line key v rest) ≡ some v
unfolding line_setting
line_setting_lem key v rest h =
    rw
      (
        prefix-append (setting_prefix key) (v ++ (b'"' ∷ rest)),
        drop-append (setting_prefix key) (v ++ (b'"' ∷ rest)),
      )
      (quote-append v rest h)

abbrev pub IsOneLine : Text → Type 0
IsOneLine l = any (λ d. d == 10) l ≡ false

first_line_setting :
    (key l s : Text)
    → IsOneLine l
    → file_setting key (l ++ (10 ∷ s))
      ≡ (elim (line_setting key l) [ some v ↦ some v | none ↦ file_setting key s ])
unfolding file_setting lines_setting split
first_line_setting key l s h = rw (split_by-append (λ d. d == 10) l 10 s h refl) refl

-- A setting in the configuration file, on a line of its own behind lines that do not set it, is
-- read as what was written between its quotes, quotes included, when no further quote follows on
-- the line; later lines do not matter.
pub file_setting_found :
    (key v rest more : Text) (before : List Text)
    → All (λ l. IsOneLine l × (line_setting key l ≡ none)) before
    → IsOneLine (setting_line key v rest)
    → any (λ d. d == b'"') rest ≡ false
    → file_setting key (unlines before ++ (setting_line key v rest ++ (10 ∷ more))) ≡ some v
file_setting_found key v rest more [] h o q =
    first_line_setting key (setting_line key v rest) more o
    ∙ rw (line_setting_lem key v rest q) refl
file_setting_found key v rest more (l ∷ ls) h o q =
    ap (file_setting key)
      (append_assoc l (10 ∷ unlines ls) (setting_line key v rest ++ (10 ∷ more)))
    ∙ first_line_setting key l (unlines ls ++ (setting_line key v rest ++ (10 ∷ more))) h.0.0
    ∙ rw h.0.1 (file_setting_found key v rest more ls h.1 o q)

env_set : (env p : Text) → env ≢ [] → env_or env p ≡ env
unfolding env_or
env_set [] p h = absurd (h refl)
env_set (c ∷ s) p h = refl

env_unset : (p : Text) → env_or [] p ≡ p
unfolding env_or
env_unset p = refl

flag_setting :
    (key default cf : Text) (flags : Text → Text)
    → flags key ≢ not_set
    → text_setting key default cf flags ≡ flags key
unfolding text_setting
flag_setting key default cf flags h = ground (arith, str_eq_iff (flags key) not_set)

no_flag_setting :
    (key default cf v : Text) (flags : Text → Text)
    → flags key ≡ not_set
    → file_setting key cf ≡ some v
    → text_setting key default cf flags ≡ v
unfolding text_setting
no_flag_setting key default cf v flags h k = rw (h, str_eq_refl not_set, k) refl

-- The password for agents is that of the environment if there is one, even if the command line
-- gives one too; without it, it is that of the command line if given there, and else that of
-- the configuration file, if that sets one.
pub password_order :
    (file : Read) (flags : Text → Text) (env : Text) (home : Option Text)
    → let c = resolve file flags env home in
      (env ≢ [] → c.agent_password ≡ env)
      × (env ≡ []
          → flags (lit "agentPassword") ≢ not_set
          → c.agent_password ≡ flags (lit "agentPassword"))
      × ((v : Text)
          → env ≡ []
          → flags (lit "agentPassword") ≡ not_set
          → file_setting (lit "agentPassword") (config_text file) ≡ some v
          → c.agent_password ≡ v)
unfolding resolve
password_order file flags env home =
    let key = lit "agentPassword" in
    let p = text_setting key (lit "changeme") (config_text file) flags in
    (
      λ h. env_set env p h,
      λ e h.
          ap (λ t. env_or t p) e
          ∙ (env_unset p ∙ flag_setting key (lit "changeme") (config_text file) flags h),
      λ v e h k.
          ap (λ t. env_or t p) e
          ∙ (env_unset p ∙ no_flag_setting key (lit "changeme") (config_text file) v flags h k),
    )
