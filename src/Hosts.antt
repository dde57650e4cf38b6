-- ===== src/Hosts.antt =====
-- hosts.go: the hosts file, the credentials of a host, and a command on every host at once.
pub mod Order
pub mod Tables
use ship_grip_fim.Base.{
  ℕ, zero, suc, Bool, true, false, ◌||◌, not, Option, none, some, List, [], ◌∷◌, ◌++◌, map, Text,
  lit, str_eq, if◌then◌else◌, is_nil, is_comment, get_elem?, trim_space, split, scan_lines,
  max_scan_token, Read, missing, failed, contents, Result, ok, err,
}

pub record RemoteHost : Type 0 where
  pub alias : Text
  pub address : Text
  pub port : Text
  pub path : Text
  pub report_name : Text
  pub ssh_user : Text
  pub binary_path : Text
  pub agent_user : Text
  pub agent_password : Text

-- The part of `configInfo` that a host overrides.
pub record Credentials : Type 0 where
  pub agent_user : Text
  pub agent_password : Text

unfoldable pub host_config : Credentials → RemoteHost → Credentials
host_config c h = record {
  agent_user = if not (is_nil h.agent_user) then h.agent_user else c.agent_user;
  agent_password = if not (is_nil h.agent_password) then h.agent_password else c.agent_password;
}

-- `parts[i]`, empty if there are not so many.
unfoldable pub part : ℕ → List Text → Text
part i [] = []
part zero (p ∷ ps) = p
part (suc i) (p ∷ ps) = part i ps

unfoldable pub host_of : List Text → Option RemoteHost
unfolding part
host_of (a ∷ b ∷ c ∷ d ∷ e ∷ opt) = some (record {
  alias = a;
  address = b;
  port = c;
  path = d;
  report_name = e;
  ssh_user = part 0 opt;
  binary_path = part 1 opt;
  agent_user = part 2 opt;
  agent_password = part 3 opt;
})
host_of _ = none

-- `none` for a comment, a blank line, and a line that is skipped with a warning.
unfoldable pub parse_host : Text → Option RemoteHost
unfolding host_of
parse_host raw =
    let line = trim_space raw in
    if is_comment line then none else host_of (map trim_space (split b'|' line))

unfoldable pub parse_lines : List Text → List RemoteHost
unfolding parse_host
parse_lines [] = []
parse_lines (l ∷ ls) =
    let rest = parse_lines ls in elim (parse_host l) [ none ↦ rest | some h ↦ h ∷ rest ]

pub data HostsError : Type 0 where
  cannot_open line_too_long : HostsError

-- `scanner.Err()` is an error for the callers, whatever was parsed.
unfoldable pub parse_hosts_config : Read → Result HostsError (List RemoteHost)
unfolding parse_lines
parse_hosts_config missing = err cannot_open
parse_hosts_config failed = err cannot_open
parse_hosts_config (contents s) =
    let (lines, long) = scan_lines max_scan_token s in
    if long then err line_too_long else ok (parse_lines lines)

pub record HostResult : Type 0 where
  pub alias : Text
  pub output : Text

unfoldable pub set_elem : ℕ → HostResult → List HostResult → List HostResult
set_elem i r [] = []
set_elem zero r (s ∷ ss) = r ∷ ss
set_elem (suc i) r (s ∷ ss) = s ∷ set_elem i r ss

-- `runRemoteCommandToString` is the parameter `remote`: the network is not modelled.
module _ (remote : Credentials → Text → Text → List Text → Text) (c : Credentials)
    (args : List Text) where
  unfoldable pub host_result : RemoteHost → HostResult
  host_result h = record {
    alias = h.alias;
    output = remote (host_config c h) h.address h.port args;
  }

  unfoldable pub stored : Option RemoteHost → ℕ → List HostResult → List HostResult
  unfolding set_elem host_result
  stored none i slots = slots
  stored (some h) i slots = set_elem i (host_result h) slots

  -- The goroutine of one host stores its result in the slot of its own index.
  unfoldable pub store_result : List RemoteHost → ℕ → List HostResult → List HostResult
  unfolding stored
  store_result hosts i slots = stored (get_elem? hosts i) i slots

  unfoldable pub store_all : List RemoteHost → List ℕ → List HostResult → List HostResult
  unfolding store_result
  store_all hosts [] slots = slots
  store_all hosts (i ∷ order) slots = store_all hosts order (store_result hosts i slots)

  -- The goroutines end in any order.
  unfoldable pub run_on_all_hosts : List RemoteHost → List ℕ → List HostResult
  unfolding store_all
  run_on_all_hosts hosts order =
      store_all hosts order (map (λ h. record { alias = []; output = [] }) hosts)

unfoldable pub header_of : HostResult → Text
header_of r = lit "=== " ++ (r.alias ++ (lit " ===" ++ (10 ∷ (r.output ++ (10 ∷ [])))))

unfoldable pub remote_all_string : List HostResult → Text
unfolding header_of
remote_all_string [] = []
remote_all_string (r ∷ rs) = header_of r ++ remote_all_string rs

-- The hosts that a command with an alias is for: all of them if it is empty.
unfoldable pub selected : Text → List RemoteHost → List RemoteHost
selected alias [] = []
selected alias (h ∷ hs) =
    let rest = selected alias hs in if is_nil alias || str_eq h.alias alias then h ∷ rest else rest
