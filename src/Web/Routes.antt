-- ===== src/Web/Routes.antt =====
-- web_gui.go: the routes of `startWebGUI` with the role that each needs, and a request from its
-- arrival to its answer. A path that is not clean is redirected by the library before it comes here.
use ship_grip_fim.Base.{
  ℕ, Bool, Option, none, some, List, [], Text, lit, str_eq, if◌then◌else◌, has_prefix,
}
use ship_grip_fim.Auth.Roles.{role_ro, role_rw, role_admin}
use ship_grip_fim.Auth.Users.{Bcrypt}
use ship_grip_fim.QuickCompare.{ParseTime}
use ship_grip_fim.Hosts.{Credentials}
use ship_grip_fim.Sessions
use ship_grip_fim.Sessions.{
  WebSession, SessionStore, Request, handled, current_session, require_role, Login, web_login,
  web_logout, web_me, web_login_page,
}
use ship_grip_fim.WebRemote.{web_remote}
use ship_grip_fim.Web.{
  WebConfig, Body, WebState, WebEnv, Response, post_required, not_found, index_page, report_names,
  deploy_status, remote,
}
use ship_grip_fim.Web.Handlers.{
  web_list_reports, web_get_report, web_scan, web_compare, web_quick_compare, web_status,
  web_agent_start, web_agent_stop, web_users, web_hosts, web_sync_all, web_deploy_hosts,
  web_ping_all, web_remote_all, web_start_all, remote_request,
}

-- The handlers behind the guard that return an answer about the server.
pub data Handler : Type 0 where
  index list_reports get_report compare quick_compare status hosts ping_all remote_command
        remote_all :
      Handler
  scan agent_start agent_stop sync_all start_all deploy_hosts users : Handler

-- Where a path leads: to a handler behind the guard, or to one of the pages of the session.
pub data Route : Type 0 where
  to : Handler → Route
  login_page login logout me : Route

-- The patterns without a slash at their end.
unfoldable pub exact_route : Text → Option Route
exact_route p =
    if str_eq p (lit "/login")
    then some login_page
    else if str_eq p (lit "/api/login")
    then some login
    else if str_eq p (lit "/api/logout")
    then some logout
    else if str_eq p (lit "/api/me")
    then some me
    else if str_eq p (lit "/api/reports")
    then some (to list_reports)
    else if str_eq p (lit "/api/compare")
    then some (to compare)
    else if str_eq p (lit "/api/quickcompare")
    then some (to quick_compare)
    else if str_eq p (lit "/api/status")
    then some (to status)
    else if str_eq p (lit "/api/hosts")
    then some (to hosts)
    else if str_eq p (lit "/api/hosts/pingall")
    then some (to ping_all)
    else if str_eq p (lit "/api/remote")
    then some (to remote_command)
    else if str_eq p (lit "/api/hosts/remoteall")
    then some (to remote_all)
    else if str_eq p (lit "/api/scan")
    then some (to scan)
    else if str_eq p (lit "/api/agent/start")
    then some (to agent_start)
    else if str_eq p (lit "/api/agent/stop")
    then some (to agent_stop)
    else if str_eq p (lit "/api/hosts/sync")
    then some (to sync_all)
    else if str_eq p (lit "/api/hosts/start")
    then some (to start_all)
    else if str_eq p (lit "/api/hosts/deploy")
    then some (to deploy_hosts)
    else if str_eq p (lit "/api/users")
    then some (to users)
    else none

-- A pattern with a slash at its end takes every path that it starts; the longest one wins.
unfoldable pub route : Text → Route
unfolding exact_route
route p = elim (exact_route p) [
  | some r ↦ r
  | none ↦ if has_prefix (lit "/api/report/") p then to get_report else to index
]

-- The role next to the route.
unfoldable pub need_of : Handler → Text
need_of scan = role_rw
need_of agent_start = role_rw
need_of agent_stop = role_rw
need_of sync_all = role_rw
need_of start_all = role_rw
need_of deploy_hosts = role_admin
need_of users = role_admin
need_of _ = role_ro

abbrev pub is_post : Request → Bool
is_post r = str_eq r.method (lit "POST")

abbrev pub posted : Request → WebState → Response × WebState → Response × WebState
posted r s answer = if is_post r then answer else (post_required, s)

-- The user and role of `webRoleFor`; both are empty without a session.
unfoldable pub who_of : Option WebSession → Text × Text
who_of none = ([], [])
who_of (some ses) = (ses.user, ses.role)

unfoldable pub after_guard :
    Sessions.Answer (Response × WebState) → WebState → Sessions.Answer Response × WebState
after_guard (handled (a, s')) s = (handled a, s')
after_guard Sessions.login_required s = (Sessions.login_required, s)
after_guard Sessions.redirect_to_login s = (Sessions.redirect_to_login, s)
after_guard Sessions.permission_denied s = (Sessions.permission_denied, s)
after_guard Sessions.json_required s = (Sessions.json_required, s)

module _ (bcrypt : Bcrypt) (parse : ParseTime) (send : Credentials → Text → Text → List Text → Text)
    (c : WebConfig) where
  unfoldable pub run_handler :
      Handler → Text × Text → Request → Body → WebEnv → WebState → Response × WebState
  run_handler index (user, role) r b env s =
      (if str_eq r.path (lit "/") then index_page user role else not_found, s)
  run_handler list_reports who r b env s = (report_names (web_list_reports c env), s)
  run_handler get_report who r b env s = (web_get_report c r.path s, s)
  run_handler compare who r b env s = posted r s (web_compare c env b s)
  run_handler quick_compare who r b env s = posted r s (web_quick_compare parse c env b s)
  run_handler status who r b env s = (web_status s, s)
  run_handler hosts who r b env s = web_hosts env s
  run_handler ping_all who r b env s = posted r s (web_ping_all send c env s)
  run_handler remote_command (user, role) r b env s =
      (remote (web_remote c.credentials role r.method (remote_request b)), s)
  run_handler remote_all (user, role) r b env s = posted r s (web_remote_all send c env role b s)
  run_handler scan who r b env s = posted r s (web_scan c b s)
  run_handler agent_start who r b env s = posted r s (web_agent_start c b s)
  run_handler agent_stop who r b env s = posted r s (web_agent_stop s)
  run_handler sync_all who r b env s = posted r s (web_sync_all send c env s)
  run_handler start_all who r b env s = posted r s (web_start_all env b s)
  run_handler deploy_hosts who r b env s =
      if str_eq r.method (lit "GET")
      then (deploy_status s.deploy.running s.deploy.output, s)
      else posted r s (web_deploy_hosts env b s)
  run_handler users who r b env s = posted r s (web_users bcrypt c env b s)

  -- A request to a handler behind the guard; the sessions change when expired ones are dropped.
  unfoldable pub serve :
      ℕ
      → Handler
      → Request
      → Body
      → WebEnv
      → SessionStore
      → WebState
      → Sessions.Answer Response × WebState
  unfolding run_handler need_of after_guard who_of
  serve now h r b env m s =
      let who = who_of (current_session now r m).0 in
      after_guard (require_role now (need_of h) r (run_handler h who r b env s) m).0 s
