-- ===== src/Web/Access.antt =====
-- web_gui.go: what a role can change through the web server.
use ship_grip_fim.Base.{
  ℕ, Bool, true, false, ◌&&◌, not, ◌≡◌, refl, Option, none, some, List, Text, lit, str_eq,
  if◌then◌else◌, ◌⊎◌, inl, inr, arith, Bool-cases, Option-cases, subst, ok, err, Result, if_both,
  is_nil, has_prefix, sym,
}
use ship_grip_fim.Auth.Roles.{role_rw, role_admin, role_rank, role_allows, command_role}
use ship_grip_fim.Auth.Users.{Bcrypt}
use ship_grip_fim.QuickCompare.{ParseTime}
use ship_grip_fim.Report.Compare.{CompareState}
use ship_grip_fim.Hosts.{RemoteHost, Credentials, HostsError, parse_hosts_config}
use ship_grip_fim.Sessions.{
  WebSession, SessionStore, Request, handled, current_session, require_role,
}
use ship_grip_fim.Sessions
use ship_grip_fim.Web.{WebConfig, Body, WebState, WebEnv, Response, missing_fields, denied}
use ship_grip_fim.Web.Handlers.{
  for_hosts, with_hosts, close_stop, start_with, sync_to, web_compare, web_quick_compare, web_hosts,
  web_ping_all, web_remote_all, web_scan, web_agent_start, web_agent_stop, web_sync_all,
  web_start_all,
}
use ship_grip_fim.Web.Routes.{
  Handler, index, list_reports, get_report, compare, quick_compare, status, hosts, ping_all,
  remote_command, remote_all, scan, agent_start, agent_stop, sync_all, start_all, deploy_hosts,
  users, need_of, posted, run_handler, who_of, after_guard, serve,
}

-- No operation, agent, deploy or goroutine was started or stopped, no users file was changed, and no
-- agent was started over ssh and no reports were synchronised.
pub record IsUnmoved (s s' : WebState) : Type 0 where
  pub same_flags : s'.flags ≡ s.flags
  pub same_agent : s'.agent_running ≡ s.agent_running
  pub same_stop : s'.agent_stop ≡ s.agent_stop
  pub same_work : s'.work ≡ s.work
  pub same_deploy : s'.deploy ≡ s.deploy
  pub same_users : s'.users ≡ s.users
  pub same_ssh : s'.ssh_log ≡ s.ssh_log
  pub same_synced : s'.synced ≡ s.synced

pub unmoved : (s : WebState) → IsUnmoved s s
unmoved s = record {
  same_flags = refl;
  same_agent = refl;
  same_stop = refl;
  same_work = refl;
  same_deploy = refl;
  same_users = refl;
  same_ssh = refl;
  same_synced = refl;
}

-- No user and no deploy was changed.
pub record IsAdministered (s s' : WebState) : Type 0 where
  pub kept_deploy : s'.deploy ≡ s.deploy
  pub kept_users : s'.users ≡ s.users

administered : (s s' : WebState) → IsUnmoved s s' → IsAdministered s s'
administered s s' u = record { kept_deploy = u.same_deploy; kept_users = u.same_users }

pub reports_only : (s : WebState) (r : CompareState) → IsUnmoved s (record s { reports = r })
reports_only s r = record {
  same_flags = refl;
  same_agent = refl;
  same_stop = refl;
  same_work = refl;
  same_deploy = refl;
  same_users = refl;
  same_ssh = refl;
  same_synced = refl;
}

-- What holds of a failure to read the hosts file and of every list of hosts.
pub for_hosts_both :
    (P : WebState → Type 0) (s : WebState) (f : List RemoteHost → Response × WebState)
    (r : Result HostsError (List RemoteHost))
    → P s
    → ((hs : List RemoteHost) → P (f hs).1)
    → P (for_hosts s f r).1
unfolding for_hosts
for_hosts_both P s f (err e) old new = old
for_hosts_both P s f (ok hs) old new = new hs

-- The same of the two branches of a test.
pub if_state :
    (P : WebState → Type 0) (b : Bool) (x y : Response × WebState)
    → P x.1
    → P y.1
    → P (if b then x else y).1
if_state P b x y p q = if_both (λ (z : Response × WebState). P z.1) b x y p q

module _ (bcrypt : Bcrypt) (parse : ParseTime) (send : Credentials → Text → Text → List Text → Text)
    (c : WebConfig) (env : WebEnv) (b : Body) (s : WebState) where
  pub compare-IsUnmoved : IsUnmoved s (web_compare c env b s).1
  unfolding web_compare
  compare-IsUnmoved = if_state (IsUnmoved s) _ _ _ (unmoved s) (reports_only s _)

  pub hosts-IsUnmoved : IsUnmoved s (web_hosts env s).1
  unfolding web_hosts with_hosts
  hosts-IsUnmoved = for_hosts_both (IsUnmoved s) s _ _ (unmoved s) (λ hs. unmoved s)

  pub ping_all-IsUnmoved : IsUnmoved s (web_ping_all send c env s).1
  unfolding web_ping_all with_hosts
  ping_all-IsUnmoved = for_hosts_both (IsUnmoved s) s _ _ (unmoved s) (λ hs. unmoved s)

  pub remote_all-IsUnmoved : (role : Text) → IsUnmoved s (web_remote_all send c env role b s).1
  unfolding web_remote_all with_hosts
  remote_all-IsUnmoved role =
      if_state (IsUnmoved s) (is_nil b.cmd) (missing_fields, s) _ (unmoved s)
        (if_state (IsUnmoved s) (not (role_allows role (command_role b.cmd)))
          (denied (command_role b.cmd), s) _ (unmoved s)
          (for_hosts_both (IsUnmoved s) s _ _ (unmoved s) (λ hs. unmoved s)))

  sync_all-IsAdministered : IsAdministered s (web_sync_all send c env s).1
  unfolding web_sync_all with_hosts sync_to
  sync_all-IsAdministered =
      for_hosts_both (IsAdministered s) s (sync_to send c env s) (parse_hosts_config env.hosts_file)
        (administered s s (unmoved s)) (λ hs. record { kept_deploy = refl; kept_users = refl })

  start_all-IsAdministered : IsAdministered s (web_start_all env b s).1
  unfolding web_start_all start_with
  start_all-IsAdministered = by_hosts (parse_hosts_config env.hosts_file)
    where
      by_hosts :
          (r : Result HostsError (List RemoteHost)) → IsAdministered s (start_with env b r s).1
      by_hosts (err e) = administered s s (unmoved s)
      by_hosts (ok hs) = record { kept_deploy = refl; kept_users = refl }

  scan-IsAdministered : IsAdministered s (web_scan c b s).1
  unfolding web_scan
  scan-IsAdministered = ground arith

  agent_start-IsAdministered : IsAdministered s (web_agent_start c b s).1
  unfolding web_agent_start
  agent_start-IsAdministered = ground arith

  agent_stop-IsAdministered : IsAdministered s (web_agent_stop s).1
  unfolding web_agent_stop
  agent_stop-IsAdministered =
      if_state (IsAdministered s) _ _ _ (administered s s (unmoved s)) (stop s.agent_stop)
    where
      stop : (x : Option Bool) → IsAdministered s (close_stop x s).1
      stop none = administered s s (unmoved s)
      stop (some true) = administered s s (unmoved s)
      stop (some false) = record { kept_deploy = refl; kept_users = refl }

  -- What a handler can do by the role that it needs.
  abbrev IsWithin : Handler → WebState → Type 0
  IsWithin h s' =
      IsUnmoved s s' ⊎ ((need_of h ≡ role_rw) × IsAdministered s s') ⊎ (need_of h ≡ role_admin)

  pub posted-IsUnmoved :
      (r : Request) (answer : Response × WebState)
      → IsUnmoved s answer.1
      → IsUnmoved s (posted r s answer).1
  posted-IsUnmoved r answer u = if_state (IsUnmoved s) _ _ _ u (unmoved s)

  posted-IsAdministered :
      (r : Request) (answer : Response × WebState)
      → IsAdministered s answer.1
      → IsAdministered s (posted r s answer).1
  posted-IsAdministered r answer u =
      if_state (IsAdministered s) _ _ _ u (administered s s (unmoved s))

  run-IsWithin :
      (h : Handler) (who : Text × Text) (r : Request)
      → IsWithin h (run_handler bcrypt parse send c h who r b env s).1
  unfolding run_handler need_of
  run-IsWithin index who r = inl (unmoved s)
  run-IsWithin list_reports who r = inl (unmoved s)
  run-IsWithin get_report who r = inl (unmoved s)
  run-IsWithin compare who r = inl (posted-IsUnmoved r _ compare-IsUnmoved)
  run-IsWithin quick_compare who r =
      inl (posted-IsUnmoved r _ (unfold web_quick_compare in reports_only s _))
  run-IsWithin status who r = inl (unmoved s)
  run-IsWithin hosts who r = inl hosts-IsUnmoved
  run-IsWithin ping_all who r = inl (posted-IsUnmoved r _ ping_all-IsUnmoved)
  run-IsWithin remote_command who r = inl (unmoved s)
  run-IsWithin remote_all (user, role) r = inl (posted-IsUnmoved r _ (remote_all-IsUnmoved role))
  run-IsWithin scan who r = inr (inl (refl, posted-IsAdministered r _ scan-IsAdministered))
  run-IsWithin agent_start who r =
      inr (inl (refl, posted-IsAdministered r _ agent_start-IsAdministered))
  run-IsWithin agent_stop who r =
      inr (inl (refl, posted-IsAdministered r _ agent_stop-IsAdministered))
  run-IsWithin sync_all who r = inr (inl (refl, posted-IsAdministered r _ sync_all-IsAdministered))
  run-IsWithin start_all who r =
      inr (inl (refl, posted-IsAdministered r _ start_all-IsAdministered))
  run-IsWithin deploy_hosts who r = inr (inr refl)
  run-IsWithin users who r = inr (inr refl)

admin-rw : (role : Text) → role_allows role role_admin ≡ true → role_allows role role_rw ≡ true
unfolding role_allows role_rank lit str_eq
admin-rw role h = ground arith

pub need_of-is_nil : (h : Handler) → is_nil (need_of h) ≡ false
unfolding need_of lit
need_of-is_nil h = grind arith

-- The session of a request has a role that allows another.
abbrev pub HasRole : Text → ℕ → Request → SessionStore → Type 0
HasRole need now r m =
    (ses : WebSession) × ((current_session now r m).0 ≡ some ses)
    × (role_allows ses.role need ≡ true)

-- Either nothing is changed, or the answer of the handler is given and the session has the role.
pub guard_cases :
    (now : ℕ) (need : Text) (r : Request) (answer : Response × WebState) (m : SessionStore)
    (s : WebState)
    → is_nil need ≡ false
    → ((after_guard (require_role now need r answer m).0 s).1 ≡ s)
      ⊎ (HasRole need now r m × ((after_guard (require_role now need r answer m).0 s).1 ≡ answer.1))
unfolding require_role after_guard
guard_cases now need r answer m s n = elim (Option-cases (current_session now r m).0) [
  | inl e ↦ inl (
      rw e (
        if_both (λ (z : Sessions.Answer (Response × WebState)). (after_guard z s).1 ≡ s)
          (Sessions.is_api r) Sessions.login_required Sessions.redirect_to_login refl refl))
  | inr (ses, e) ↦ elim (Bool-cases (role_allows ses.role need)) [
    | inl a ↦
        elim (Bool-cases (
          str_eq r.method (lit "POST")
          && Sessions.is_api r
          && not (has_prefix (lit "application/json") r.content_type))) [
            | inl j ↦ inl (rw (e, a, n, j) refl)
            | inr j ↦ inr ((ses, e, a), rw (e, a, n, j) refl)
          ]
    | inr a ↦ inl (rw (e, a, n) refl)
  ]
]

module _ (bcrypt : Bcrypt) (parse : ParseTime) (send : Credentials → Text → Text → List Text → Text)
    (c : WebConfig) where
  -- A request to any handler behind the guard starts or stops no operation, agent, deploy or
  -- goroutine of the web server, gives ssh no command that starts an agent, synchronises no reports,
  -- and changes no users file, unless it comes with a valid session of the role rw; and it changes no
  -- users file and no deploy unless the session has the role admin. What an agent does with a command
  -- that the server passes on to it is left out.
  pub serve_access :
      (now : ℕ) (h : Handler) (r : Request) (b : Body) (env : WebEnv) (m : SessionStore)
      (s : WebState)
      → let s' = (serve bcrypt parse send c now h r b env m s).1 in
        (HasRole role_rw now r m ⊎ IsUnmoved s s')
        × (HasRole role_admin now r m ⊎ IsAdministered s s')
  unfolding serve
  serve_access now h r b env m s =
      let who = who_of (current_session now r m).0 in
      let answer = run_handler bcrypt parse send c h who r b env s in
      elim (guard_cases now (need_of h) r answer m s (need_of-is_nil h)) [
        | inl e ↦ (
          inr (subst (IsUnmoved s) (sym e) (unmoved s)),
          inr (subst (IsAdministered s) (sym e) (administered s s (unmoved s))),
        )
        | inr ((ses, k, a), e) ↦ elim (run-IsWithin bcrypt parse send c env b s h who r) [
          | inl u ↦ (
            inr (subst (IsUnmoved s) (sym e) u),
            inr (subst (IsAdministered s) (sym e) (administered s answer.1 u)),
          )
          | inr (inl (n, u)) ↦ (
            inl (ses, k, subst (λ w. role_allows ses.role w ≡ true) n a),
            inr (subst (IsAdministered s) (sym e) u),
          )
          | inr (inr n) ↦
              let x = subst (λ w. role_allows ses.role w ≡ true) n a in
              (inl (ses, k, admin-rw ses.role x), inl (ses, k, x))
        ]
      ]
