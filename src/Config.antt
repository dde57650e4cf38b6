-- ===== src/Config.antt =====
-- integrity.go: `main` resolves every setting from its default, the configuration file, the command
-- line and the environment. The package flag is not modelled: `flags` gives the value of each flag,
-- "----" if it is not set. Regular expressions of the ignore files are parameters too.
pub mod Settings
use Prim.Native.Nat.{◌^◌}
use ship_grip_fim.Base.{
  ℕ, zero, suc, ◌+◌, ◌-◌, ◌*◌, Bool, true, false, ◌&&◌, ◌||◌, not, Option, none, some, List, [],
  ◌∷◌, ◌++◌, Text, lit, str_eq, if◌then◌else◌, is_nil, all, ltb, leb, min, ◌==◌, has_prefix, drop,
  length, elem, split, trim_space, is_comment, scan_lines, max_scan_token, Read, missing, failed,
  contents,
}

-- The text up to the last quote: "(.*)" is greedy, and `.` matches no newline.
unfoldable pub up_to_last_quote : Text → Option Text
up_to_last_quote [] = none
up_to_last_quote (c ∷ s) =
    let rest = up_to_last_quote s in
    elim rest [ some t ↦ some (c ∷ t) | none ↦ if c == b'"' then some [] else none ]

unfoldable pub setting_prefix : Text → Text
setting_prefix key = key ++ (b'=' ∷ b'"' ∷ [])

unfoldable pub line_setting : Text → Text → Option Text
unfolding up_to_last_quote setting_prefix has_prefix
line_setting key line =
    if has_prefix (setting_prefix key) line
    then up_to_last_quote (drop (length (setting_prefix key)) line)
    else none

unfoldable pub lines_setting : Text → List Text → Option Text
unfolding line_setting
lines_setting key [] = none
lines_setting key (l ∷ ls) =
    let rest = lines_setting key ls in elim (line_setting key l) [ some v ↦ some v | none ↦ rest ]

-- The first match of (?m)^(key)="(.*)" in the configuration file.
unfoldable pub file_setting : Text → Text → Option Text
unfolding lines_setting
file_setting key cf = lines_setting key (split 10 cf)

abbrev pub not_set : Text
not_set = lit "----"

-- A setting of which the values are texts.
unfoldable pub text_setting : Text → Text → Text → (Text → Text) → Text
unfolding file_setting
text_setting key default cf flags =
    if not (str_eq (flags key) not_set)
    then flags key
    else elim (file_setting key cf) [ some v ↦ v | none ↦ default ]

-- strconv.ParseBool, false for an error.
unfoldable pub parse_bool : Text → Bool
parse_bool s = elem s (lit "1" ∷ lit "t" ∷ lit "T" ∷ lit "TRUE" ∷ lit "true" ∷ lit "True" ∷ [])

unfoldable pub bool_setting : Text → Bool → Text → (Text → Text) → Bool
unfolding file_setting parse_bool
bool_setting key default cf flags =
    if not (str_eq (flags key) not_set)
    then parse_bool (flags key)
    else elim (file_setting key cf) [ some v ↦ parse_bool v | none ↦ default ]

abbrev pub max_int : ℕ
max_int = 2 ^ 63 - 1

abbrev pub is_digit : ℕ → Bool
is_digit c = leb b'0' c && leb c b'9'

unfoldable pub digits_value : ℕ → Text → ℕ
digits_value n [] = n
digits_value n (c ∷ s) = digits_value (10 * n + (c - b'0')) s

abbrev unsigned : Text → ℕ
unsigned s = if not (is_nil s) && all is_digit s then min max_int (digits_value 0 s) else 0

-- strconv.Atoi: 0 for an error, the largest number for one that is too large. A negative number is
-- 0 here: the caller raises both to 1.
unfoldable pub atoi : Text → ℕ
unfolding digits_value
atoi [] = 0
atoi (c ∷ s) = if c == b'-' then 0 else if c == b'+' then unsigned s else unsigned (c ∷ s)

unfoldable pub number_setting : Text → ℕ → Text → (Text → Text) → ℕ
unfolding file_setting atoi
number_setting key default cf flags =
    if not (str_eq (flags key) not_set)
    then atoi (flags key)
    else elim (file_setting key cf) [ some v ↦ atoi v | none ↦ default ]

unfoldable pub at_least_one : ℕ → ℕ
at_least_one n = if ltb n 1 then 1 else n

-- `home` is os.UserHomeDir, none for an error; filepath.Join for a home directory that is clean.
unfoldable pub expand_home : Option Text → Text → Text
expand_home none p = p
expand_home (some home) p =
    if str_eq p (lit "~") then home else if has_prefix (lit "~/") p then home ++ drop 1 p else p

pub record ConfigInfo : Type 0 where
  pub report_dir : Text
  pub data_source : Text
  pub report_name : Text
  pub host : Text
  pub path : Text
  pub para_count : ℕ
  pub remove_base_path : Bool
  pub ignore_path_config : Text
  pub ignore_path_no_walk_config : Text
  pub agent_host : Text
  pub agent_port : Text
  pub hosts_config : Text
  pub schedule_config : Text
  pub exporter_host : Text
  pub exporter_port : Text
  pub web_host : Text
  pub web_port : Text
  pub agent_cert : Text
  pub agent_key : Text
  pub known_agents : Text
  pub trust_new_agents : Bool
  pub users_db : Text
  pub agent_user : Text
  pub agent_password : Text
  pub web_tls : Bool

-- A set and non-empty SGF_AGENT_PASSWORD is `env`, and otherwise `env` is empty.
unfoldable pub env_or : Text → Text → Text
env_or env p = if not (is_nil env) then env else p

-- A configuration file that cannot be read counts as empty.
unfoldable pub config_text : Read → Text
config_text (contents s) = s
config_text _ = []

unfoldable pub resolve : Read → (Text → Text) → Text → Option Text → ConfigInfo
unfolding text_setting bool_setting number_setting at_least_one expand_home env_or config_text
resolve file flags env home =
    let cf = config_text file in
    record {
      report_dir =
          expand_home home (text_setting (lit "reportDir") (lit "~/integrity_reports") cf flags);
      data_source = text_setting (lit "dataSource") (lit "file") cf flags;
      report_name = text_setting (lit "reportName") (lit "default_adhoc_report") cf flags;
      host = text_setting (lit "host") (lit "duck-puppy") cf flags;
      path = text_setting (lit "path") (lit "/storage1") cf flags;
      para_count = at_least_one (number_setting (lit "paraCount") 8 cf flags);
      remove_base_path = bool_setting (lit "removeBasePath") false cf flags;
      ignore_path_config =
          text_setting (lit "ignorePathConfig") (lit "integrity_ignore.cfg") cf flags;
      ignore_path_no_walk_config =
          text_setting (lit "ignorePathNoWalkConfig") (lit "integrity_ignore_no_walk.cfg") cf flags;
      agent_host = text_setting (lit "agentHost") (lit "localhost") cf flags;
      agent_port = text_setting (lit "agentPort") (lit "8080") cf flags;
      hosts_config = text_setting (lit "hostsConfig") (lit "hosts.conf") cf flags;
      schedule_config = text_setting (lit "scheduleConfig") (lit "schedule.conf") cf flags;
      exporter_host = text_setting (lit "exporterHost") (lit "0.0.0.0") cf flags;
      exporter_port = text_setting (lit "exporterPort") (lit "9110") cf flags;
      web_host = text_setting (lit "webHost") (lit "localhost") cf flags;
      web_port = text_setting (lit "webPort") (lit "8090") cf flags;
      agent_cert = text_setting (lit "agentCert") (lit "agent.crt") cf flags;
      agent_key = text_setting (lit "agentKey") (lit "agent.key") cf flags;
      known_agents = text_setting (lit "knownAgents") (lit "known_agents") cf flags;
      trust_new_agents = bool_setting (lit "trustNewAgents") true cf flags;
      users_db = text_setting (lit "usersDB") (lit "users.db") cf flags;
      agent_user = text_setting (lit "agentUser") (lit "admin") cf flags;
      agent_password = env_or env (text_setting (lit "agentPassword") (lit "changeme") cf flags);
      web_tls = bool_setting (lit "webTLS") true cf flags;
    }

-- The patterns of an ignore file: `compile` is regexp.Compile, and a line that it refuses is skipped.
module _ {ℓ} {R : Type ℓ} (compile : Text → Option R) where
  unfoldable pub compile_lines : List Text → List R
  compile_lines [] = []
  compile_lines (raw ∷ ls) =
      let rest = compile_lines ls in
      let line = trim_space raw in
      if is_comment line then rest else elim (compile line) [ none ↦ rest | some r ↦ r ∷ rest ]

  unfoldable pub load_configs_other : Read → List R
  unfolding compile_lines
  load_configs_other (contents s) = compile_lines (scan_lines max_scan_token s).0
  load_configs_other _ = []
