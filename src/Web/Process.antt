-- ===== src/Web/Process.antt =====
-- web_gui.go: the goroutines of the web server, from the handler that starts them to their end.
pub mod Starts
pub mod Tidy
pub mod Stop
use ship_grip_fim.Base.{
  ℕ, zero, suc, ◌+◌, ◌≤◌, Bool, true, false, ◌&&◌, ◌||◌, not, ◌≡◌, refl, ap, ◌∙◌, sym, Option, none,
  some, List, [], ◌∷◌, Text, lit, str_eq, if◌then◌else◌, ltb, ◌⊎◌, inl, inr, arith, Bool-cases,
  Option-cases, is_some, subst, Result, ok, err, Map,
}
use ship_grip_fim.Auth.Users.{Bcrypt}
use ship_grip_fim.QuickCompare.{ParseTime}
use ship_grip_fim.Hosts.{RemoteHost, HostsError, Credentials, parse_hosts_config}
use ship_grip_fim.Scheduler.History.{Running, is_busy}
use ship_grip_fim.Deploy.Jobs.{DeployJob, start_deploy, end_deploy}
use ship_grip_fim.Sessions.{SessionStore, Request, require_role, current_session}
use ship_grip_fim.Web.{
  WebConfig, Body, WebWork, scan_of, agent_of, deploy_of, WebState, WebEnv, Response, stop_sent,
  panicked, deploy_status,
}
use ship_grip_fim.Web.Handlers.{
  web_scan, web_agent_start, web_agent_stop, web_deploy_hosts, web_users, web_quick_compare,
  web_start_all, deploy_to, for_hosts, with_hosts, close_stop,
}
use ship_grip_fim.Web.Routes.{
  Handler, index, list_reports, get_report, compare, quick_compare, status, hosts, ping_all,
  remote_command, remote_all, scan, agent_start, agent_stop, sync_all, start_all, deploy_hosts,
  users, need_of, is_post, posted, run_handler, who_of, after_guard, serve,
}
use ship_grip_fim.Web.Access.{
  IsUnmoved, reports_only, for_hosts_both, if_state, compare-IsUnmoved, hosts-IsUnmoved,
  ping_all-IsUnmoved, remote_all-IsUnmoved, guard_cases, need_of-is_nil,
}

-- A goroutine ends: its deferred function, or what follows the call of the agent.
unfoldable pub work_done : WebWork → WebState → WebState
work_done (scan_of c) s = record s { flags = record s.flags { scan = false } }
work_done (agent_of host port) s = record s { agent_running = false; agent_stop = none }
work_done (deploy_of hs alias binary restart) s = record s { deploy = end_deploy s.deploy }

unfoldable pub take_work : ℕ → List WebWork → Option (WebWork × List WebWork)
take_work i [] = none
take_work zero (w ∷ ws) = some (w, ws)
take_work (suc i) (w ∷ ws) =
    let rest = take_work i ws in elim rest [ none ↦ none | some (v, vs) ↦ some (v, w ∷ vs) ]

unfoldable pub finished : Option (WebWork × List WebWork) → WebState → WebState
unfolding work_done
finished none s = s
finished (some (w, ws)) s = work_done w (record s { work = ws })

-- A request with what the server finds then, or the end of a goroutine.
pub data WebEvent : Type 0 where
  request : ℕ → Handler → Request → Body → WebEnv → SessionStore → WebEvent
  work_ends : ℕ → WebEvent

module _ (bcrypt : Bcrypt) (parse : ParseTime) (send : Credentials → Text → Text → List Text → Text)
    (c : WebConfig) where
  unfoldable pub web_step : WebEvent → WebState → WebState
  unfolding finished take_work
  web_step (request now h r b env m) s = (serve bcrypt parse send c now h r b env m s).1
  web_step (work_ends i) s = finished (take_work i s.work) s

  unfoldable pub web_run : List WebEvent → WebState → WebState
  web_run [] s = s
  web_run (v ∷ vs) s = web_run vs (web_step v s)

abbrev pub is_scan_work : WebWork → ℕ
is_scan_work (scan_of c) = 1
is_scan_work _ = 0

abbrev pub is_agent_work : WebWork → ℕ
is_agent_work (agent_of h p) = 1
is_agent_work _ = 0

abbrev pub is_deploy_work : WebWork → ℕ
is_deploy_work (deploy_of hs a b r) = 1
is_deploy_work _ = 0

abbrev pub total : (WebWork → ℕ) → List WebWork → ℕ
total f [] = 0
total f (w ∷ ws) = f w + total f ws

abbrev pub as_count : Bool → ℕ
as_count b = if b then 1 else 0

-- The flags say which goroutines there are, of which no two are of a kind, and the agent's channel is
-- there exactly while the agent runs.
pub record IsTidy (s : WebState) : Type 0 where
  pub scans : total is_scan_work s.work ≡ as_count s.flags.scan
  pub agents : total is_agent_work s.work ≡ as_count s.agent_running
  pub deploys : total is_deploy_work s.work ≡ as_count s.deploy.running
  pub channel : is_some s.agent_stop ≡ s.agent_running
