-- ===== src/Web/Handlers.antt =====
-- web_gui.go: what each handler does with a request that reached it, after the test of the method.
use ship_grip_fim.Base.{
  Bool, true, false, ◌||◌, not, Option, none, some, List, [], ◌∷◌, ◌++◌, Text, lit, str_eq,
  if◌then◌else◌, is_nil, has_prefix, contains_any, trim_space, split, unlines, drop, length, Result,
  ok, err,
}
use ship_grip_fim.Agent.Command.{entry_names}
use ship_grip_fim.Auth.Roles.{role_allows, command_role}
use ship_grip_fim.Auth.Users.{Bcrypt}
use ship_grip_fim.Auth.Command.{user_command}
use ship_grip_fim.Report.Store.{
  ReportConfig, valid_report_id, list_reports, list_report_data_string,
}
use ship_grip_fim.Report.Compare.{compare_reports_string}
use ship_grip_fim.QuickCompare.{ParseTime, quick_compare_string}
use ship_grip_fim.Scheduler.History.{is_busy}
use ship_grip_fim.Hosts.{
  RemoteHost, Credentials, HostsError, parse_hosts_config, run_on_all_hosts, remote_all_string,
  selected,
}
use ship_grip_fim.Hosts.Tables.{tag, ping_all_string, start_agents, ssh_calls}
use ship_grip_fim.Sync.{sync_each}
use ship_grip_fim.Deploy.Jobs.{start_deploy}
use ship_grip_fim.WebRemote.{RemoteRequest}
use ship_grip_fim.Web.{
  WebConfig, Body, scan_of, agent_of, deploy_of, WebState, WebEnv, Response, already_running,
  agent_already_running, agent_not_running, started, stop_sent, missing_fields, panicked,
  deploy_running, denied, hosts_failed, hosts_unread, report_text, compared, quick_compared, status,
  agent_started, user_reply, host_list, output,
}

abbrev pub or_default : Text → Text → Text
or_default given default = if not (is_nil given) then given else default

-- `webListReports`: the loop over the lines of the listing.
unfoldable pub is_report_line : Text → Bool
is_report_line l = not (
    is_nil l
    || has_prefix (lit "compare__") l
    || contains_any l (b' ' ∷ 9 ∷ [])
    || has_prefix (lit "-") l
    || has_prefix (lit "=") l)

unfoldable pub report_lines_of : List Text → List Text
unfolding is_report_line
report_lines_of [] = []
report_lines_of (raw ∷ ls) =
    let l = trim_space raw in
    let rest = report_lines_of ls in if is_report_line l then l ∷ rest else rest

unfoldable pub web_list_reports : WebConfig → WebEnv → List Text
unfolding report_lines_of
web_list_reports c env = report_lines_of (
    split 10 (elim (list_reports c.report env.entries) [
      | ok (some t) ↦ t
      | ok none ↦ env.list_error
      | err e ↦ env.list_error
    ]))

unfoldable pub web_get_report : WebConfig → Text → WebState → Response
web_get_report c path s =
    let id = drop (length (lit "/api/report/")) path in
    if not (valid_report_id id)
    then missing_fields
    else report_text (list_report_data_string c.report id s.reports.files)

abbrev pub with_dir : ReportConfig → Text → ReportConfig
with_dir c dir = record c { report_dir = or_default dir c.report_dir }

unfoldable pub web_scan : WebConfig → Body → WebState → Response × WebState
web_scan c b s =
    let c' : ReportConfig = record (with_dir c.report b.report_dir) {
      path = or_default b.path c.report.path;
      report_name = or_default b.report_name c.report.report_name;
    } in
    if is_busy s.flags
    then (already_running, s)
    else (started, record s { flags = record s.flags { scan = true }; work = scan_of c' ∷ s.work })

unfoldable pub web_compare : WebConfig → WebEnv → Body → WebState → Response × WebState
web_compare c env b s =
    if not (valid_report_id b.older) || not (valid_report_id b.newer)
    then (missing_fields, s)
    else let (r, reports) =
        compare_reports_string (with_dir c.report b.report_dir) env.time env.compare_write b.older
          b.newer s.reports in
      (compared r, record s { reports = reports })

unfoldable pub web_quick_compare :
    ParseTime → WebConfig → WebEnv → Body → WebState → Response × WebState
unfolding entry_names
web_quick_compare parse c env b s =
    let c' : ReportConfig = record (with_dir c.report b.report_dir) {
      report_name = or_default b.report_name c.report.report_name;
    } in
    let (r, reports) =
      quick_compare_string parse c' env.time env.compare_write (entry_names env.entries)
        s.reports in
    (quick_compared r, record s { reports = reports })

unfoldable pub web_status : WebState → Response
web_status s = status s.flags s.agent_running

unfoldable pub web_agent_start : WebConfig → Body → WebState → Response × WebState
web_agent_start c b s =
    let host = or_default b.host c.agent_host in
    let port = or_default b.port c.agent_port in
    if s.agent_running then (agent_already_running, s) else (
      agent_started host port,
      record s {
        agent_stop = some false;
        agent_running = true;
        work = agent_of host port ∷ s.work;
      },
    )

-- Closing a channel that is closed panics; the library answers nothing then, and the lock is released.
unfoldable pub close_stop : Option Bool → WebState → Response × WebState
close_stop none s = (agent_not_running, s)
close_stop (some true) s = (panicked, s)
close_stop (some false) s = (stop_sent, record s { agent_stop = some true })

unfoldable pub web_agent_stop : WebState → Response × WebState
unfolding close_stop
web_agent_stop s = if not s.agent_running then (agent_not_running, s) else close_stop s.agent_stop s

unfoldable pub web_users : Bcrypt → WebConfig → WebEnv → Body → WebState → Response × WebState
web_users bcrypt c env b s =
    let path = or_default b.users_db c.users_db in
    if not b.decoded || is_nil b.args
    then (missing_fields, s)
    else let (r, users) = user_command bcrypt env.users_fail env.salt path b.args (s.users path) in
      (user_reply r, record s { users = λ p. if str_eq p path then users else s.users p })

-- The handlers that read the hosts file first.
unfoldable pub for_hosts :
    WebState
    → (List RemoteHost → Response × WebState)
    → Result HostsError (List RemoteHost)
    → Response × WebState
for_hosts s f (err e) = (hosts_failed e, s)
for_hosts s f (ok hosts) = f hosts

unfoldable pub with_hosts :
    WebEnv → WebState → (List RemoteHost → Response × WebState) → Response × WebState
unfolding for_hosts
with_hosts env s f = for_hosts s f (parse_hosts_config env.hosts_file)

unfoldable pub web_hosts : WebEnv → WebState → Response × WebState
web_hosts env s = with_hosts env s (λ hosts. (host_list hosts, s))

-- What is answered; the result of each synchronisation is printed by the server.
unfoldable pub sync_lines : List RemoteHost → List Text
sync_lines [] = []
sync_lines (h ∷ hs) = (tag h ++ lit "syncing...") ∷ (tag h ++ lit "done") ∷ sync_lines hs

unfoldable pub deploy_to : Body → WebState → List RemoteHost → Response × WebState
deploy_to b s hosts =
    let (begun, job) = start_deploy s.deploy in
    let restart : Bool = elim b.restart [ none ↦ true | some r ↦ r ] in
    if begun
    then (
      started,
      record s { deploy = job; work = deploy_of hosts b.alias b.binary restart ∷ s.work },
    )
    else (deploy_running, s)

unfoldable pub web_deploy_hosts : WebEnv → Body → WebState → Response × WebState
unfolding deploy_to
web_deploy_hosts env b s = with_hosts env s (deploy_to b s)

module _ (send : Credentials → Text → Text → List Text → Text) where
  unfoldable pub web_ping_all : WebConfig → WebEnv → WebState → Response × WebState
  web_ping_all c env s = with_hosts env s (λ hosts. (
    output
        (ping_all_string (run_on_all_hosts send c.credentials (lit "status" ∷ []) hosts env.order)),
    s,
  ))

  unfoldable pub web_remote_all : WebConfig → WebEnv → Text → Body → WebState → Response × WebState
  web_remote_all c env role b s =
      if is_nil b.cmd
      then (missing_fields, s)
      else if not (role_allows role (command_role b.cmd))
      then (denied (command_role b.cmd), s)
      else with_hosts env s (λ hosts.
        (output (remote_all_string (run_on_all_hosts send c.credentials b.cmd hosts env.order)), s))

module _ (send : Credentials → Text → Text → List Text → Text) where
  unfoldable pub sync_to : WebConfig → WebEnv → WebState → List RemoteHost → Response × WebState
  unfolding sync_lines
  sync_to c env s hosts =
      let files =
        (sync_each send c.credentials env.local_dir env.mkdir_ok env.sync_writes hosts
          s.reports.files).1 in
      (
        output (unlines (sync_lines hosts)),
        record s { reports = record s.reports { files = files }; synced = hosts ++ s.synced },
      )

  unfoldable pub web_sync_all : WebConfig → WebEnv → WebState → Response × WebState
  unfolding sync_to
  web_sync_all c env s = with_hosts env s (sync_to c env s)

unfoldable pub start_with :
    WebEnv → Body → Result HostsError (List RemoteHost) → WebState → Response × WebState
start_with env b (err e) s = (hosts_unread e, s)
start_with env b (ok hosts) s = (
  output (start_agents env.quote env.dir_of env.ssh b.alias hosts),
  record s { ssh_log = ssh_calls env.quote env.dir_of (selected b.alias hosts) ++ s.ssh_log },
)

unfoldable pub web_start_all : WebEnv → Body → WebState → Response × WebState
unfolding start_with
web_start_all env b s = start_with env b (parse_hosts_config env.hosts_file) s

unfoldable pub remote_request : Body → Option RemoteRequest
remote_request b =
    if b.decoded
    then some
        (record { host = b.host; port = b.port; user = b.user; password = b.password; cmd = b.cmd })
    else none
