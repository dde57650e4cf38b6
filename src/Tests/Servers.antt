-- ===== src/Tests/Servers.antt =====
-- The web server with an agent and a scan that run.
use ship_grip_fim.Base.{
  Bool, true, false, ◌≡◌, refl, none, some, List, [], ◌∷◌, Text, lit, str_eq, missing, ◌⊎◌,
  if◌then◌else◌,
}
use ship_grip_fim.Auth.Roles.{role_rw, role_admin}
use ship_grip_fim.QuickCompare.{ParseTime}
use ship_grip_fim.Report.Store.{done}
use ship_grip_fim.Hosts.{Credentials, selected}
use ship_grip_fim.Sync.{written, sync_reports}
use ship_grip_fim.Sync.Hosts.{IsCopied, sync_reports-IsCopied}
use ship_grip_fim.Tests.Deploys.{ready}
use ship_grip_fim.Sessions.{Request, SessionStore}
use ship_grip_fim.Tests.Agents.{home_reports}
use ship_grip_fim.Tests.Instances.{toy_bcrypt}
use ship_grip_fim.Web.{WebConfig, Body, scan_of, agent_of, WebState, WebEnv, stop_sent, panicked}
use ship_grip_fim.Web.Handlers.{web_agent_stop}
use ship_grip_fim.Web.Routes.{agent_stop, serve}
use ship_grip_fim.Web.Access.{IsUnmoved, IsAdministered, HasRole, serve_access}
use ship_grip_fim.Web.Process.{work_ends, web_step, IsTidy}
use ship_grip_fim.Web.Process.Tidy.{web_step-IsTidy}
use ship_grip_fim.Web.Process.Stop.{second_stop_panics}

abbrev config : WebConfig
config = record {
  report = home_reports;
  credentials = record { agent_user = lit "a"; agent_password = lit "p" };
  agent_host = lit "localhost";
  agent_port = lit "7900";
  users_db = lit "/u";
}

abbrev body : Body
body = record {
  decoded = true;
  path = [];
  report_name = [];
  report_dir = [];
  older = [];
  newer = [];
  host = [];
  port = [];
  user = [];
  password = [];
  cmd = [];
  users_db = [];
  args = [];
  alias = [];
  binary = [];
  restart = none;
}

abbrev server : WebState
server = record {
  flags = record { scan = true; compare = false };
  agent_running = true;
  agent_stop = some false;
  deploy = record { running = false; output = [] };
  users = λ p. record { file = missing; temp = none };
  reports = record { files = []; last_compare = none };
  ssh_log = [];
  synced = [];
  work = scan_of home_reports ∷ agent_of (lit "localhost") (lit "7900") ∷ [];
}

server-IsTidy : IsTidy server
server-IsTidy = record { scans = refl; agents = refl; deploys = refl; channel = refl }

abbrev env : WebEnv
env = record {
  hosts_file = missing;
  entries = none;
  list_error = lit "ERROR";
  time = lit "t";
  compare_write = done;
  users_fail = λ k. false;
  salt = 0;
  order = [];
  quote = λ s. s;
  dir_of = λ s. s;
  ssh = λ target command. (none, []);
  local_dir = λ h. h.alias;
  mkdir_ok = λ h. true;
  sync_writes = λ h id. written;
}

abbrev no_times : ParseTime
no_times = λ layout value. none

abbrev echo : Credentials → Text → Text → List Text → Text
echo c host port words = host

abbrev sessions : SessionStore
sessions = (lit "t1", record { user = lit "bob"; role = lit "rw"; expires = 100 }) ∷ []

abbrev stop_request : Request
stop_request = record {
  method = lit "POST";
  path = lit "/api/agent/stop";
  content_type = lit "application/json";
  cookie = some (lit "t1");
}

serve_access_example :
    let s' =
      (serve toy_bcrypt no_times echo config 50 agent_stop stop_request body env sessions
        server).1 in
    (HasRole role_rw 50 stop_request sessions ⊎ IsUnmoved server s')
    × (HasRole role_admin 50 stop_request sessions ⊎ IsAdministered server s')
serve_access_example =
    serve_access toy_bcrypt no_times echo config 50 agent_stop stop_request body env sessions server

web_step-IsTidy_example : IsTidy (web_step toy_bcrypt no_times echo config (work_ends 1) server)
web_step-IsTidy_example =
    web_step-IsTidy toy_bcrypt no_times echo config (work_ends 1) server server-IsTidy

second_stop_panics_example :
    ((web_agent_stop server).0 ≡ stop_sent)
    × ((web_agent_stop (web_agent_stop server).1).0 ≡ panicked)
second_stop_panics_example = second_stop_panics server refl refl

abbrev answer : Credentials → Text → Text → List Text → Text
answer c host port (w ∷ ws) = if str_eq w (lit "list") then lit "a_1" else lit "n,t,h,/p"
answer c host port [] = []

sync_reports-IsCopied_example :
    IsCopied answer config.credentials env.local_dir env.mkdir_ok env.sync_writes
      (selected [] (ready ∷ []))
      []
      (sync_reports answer config.credentials env.local_dir env.mkdir_ok env.sync_writes []
        (ready ∷ [])
        []).1
sync_reports-IsCopied_example =
    sync_reports-IsCopied answer config.credentials env.local_dir env.mkdir_ok env.sync_writes []
      (ready ∷ []) []

abbrev listed : List (Text × Bool)
listed = (lit "compare__a__b", false) ∷ (lit "n_1", false) ∷ (lit "remote", true) ∷ []
