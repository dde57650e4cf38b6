-- ===== src/Web.antt =====
-- web_gui.go: the state of the web server, and what each handler does with a request that reached
-- it. Decoding of JSON is not modelled: a body is the value of every field, empty if it is not set,
-- and whether the decoding failed. The agent that runs inside the web server is a goroutine; what its
-- own clients do is not seen here.
pub mod Handlers
pub mod Routes
pub mod Access
pub mod Listing
pub mod Process
use ship_grip_fim.Base.{
  ℕ, Bool, true, false, ◌&&◌, ◌||◌, not, Option, none, some, List, [], ◌∷◌, ◌++◌, map, Text, lit,
  str_eq, if◌then◌else◌, is_nil, has_prefix, contains_any, trim_space, split, join, unlines, drop,
  length, Read, Result, ok, err,
}
use ship_grip_fim.Auth.Roles.{role_allows, command_role}
use ship_grip_fim.Auth.Users.{Bcrypt}
use ship_grip_fim.Auth.File.{SaveStep, UsersDir}
use ship_grip_fim.Auth.Command.{Reply, user_command}
use ship_grip_fim.Report.Store.{
  ReportConfig, ReportError, Outcome, valid_report_id, list_reports, list_report_data_string,
}
use ship_grip_fim.Report.Compare.{CompareState, compare_reports_string}
use ship_grip_fim.QuickCompare.{ParseTime, QuickResult, quick_compare_string}
use ship_grip_fim.Scheduler.History.{Running, is_busy}
use ship_grip_fim.Hosts.{
  RemoteHost, Credentials, HostsError, HostResult, parse_hosts_config, run_on_all_hosts,
  remote_all_string, selected,
}
use ship_grip_fim.Hosts.Tables.{tag, ping_all_string}
use ship_grip_fim.Deploy.Jobs.{DeployJob, start_deploy}
use ship_grip_fim.WebRemote.{RemoteRequest, web_remote}
use ship_grip_fim.Sync.{Write}
use ship_grip_fim.WebRemote

-- The part of `configInfo` that the handlers use.
pub record WebConfig : Type 0 where
  pub report : ReportConfig
  pub credentials : Credentials
  pub agent_host : Text
  pub agent_port : Text
  pub users_db : Text

-- The fields of the structs that the handlers decode.
pub record Body : Type 0 where
  pub decoded : Bool
  pub path : Text
  pub report_name : Text
  pub report_dir : Text
  pub older : Text
  pub newer : Text
  pub host : Text
  pub port : Text
  pub user : Text
  pub password : Text
  pub cmd : List Text
  pub users_db : Text
  pub args : List Text
  pub alias : Text
  pub binary : Text
  pub restart : Option Bool

-- The goroutines that the handlers start: a scan, the agent with its address, a deploy with its alias,
-- its binary and whether it restarts the agents.
pub data WebWork : Type 0 where
  scan_of : ReportConfig → WebWork
  agent_of : Text → Text → WebWork
  deploy_of : List RemoteHost → Text → Text → Bool → WebWork

-- `state`, `webSrv`, `webDeployJob` and the files. `agent_stop` is the channel, with whether it is
-- closed.
pub record WebState : Type 0 where
  pub flags : Running
  pub agent_running : Bool
  pub agent_stop : Option Bool
  pub deploy : DeployJob
  -- the users file of each path
  pub users : Text → UsersDir
  pub reports : CompareState
  pub work : List WebWork
  -- what the handlers did on other hosts: the commands that ssh was given to start agents, with their
  -- targets, and the hosts of which the reports were synchronised
  pub ssh_log : List (Text × Text)
  pub synced : List RemoteHost

-- What a request finds outside of the server.
pub record WebEnv : Type 0 where
  pub hosts_file : Read
  pub entries : Option (List (Text × Bool))
  pub list_error : Text
  pub time : Text
  pub compare_write : Outcome
  pub users_fail : SaveStep → Bool
  pub salt : ℕ
  -- the order in which the hosts answer
  pub order : List ℕ
  -- the calls of the system of `startAgents`
  pub quote : Text → Text
  pub dir_of : Text → Text
  pub ssh : Text → Text → Option Text × Text
  -- how a synchronisation goes, as in Sync
  pub local_dir : RemoteHost → Text
  pub mkdir_ok : RemoteHost → Bool
  pub sync_writes : RemoteHost → Text → Write

pub data Response : Type 0 where
  post_required already_running agent_already_running agent_not_running started stop_sent : Response
  missing_fields not_found panicked deploy_running : Response
  denied : Text → Response
  -- status 500, and the text "ERROR - reading hosts config" with status 200
  hosts_failed hosts_unread : HostsError → Response
  index_page : Text → Text → Response
  report_names : List Text → Response
  report_text compared : Result ReportError Text → Response
  quick_compared : QuickResult → Response
  status : Running → Bool → Response
  agent_started : Text → Text → Response
  user_reply : Reply → Response
  host_list : List RemoteHost → Response
  output : Text → Response
  deploy_status : Bool → Text → Response
  remote : WebRemote.Answer → Response
