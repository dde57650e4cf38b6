-- ===== src/Web/Process/Tidy.antt =====
-- web_gui.go: the flags of the web server agree with the goroutines that it has.
use ship_grip_fim.Base.{
  ℕ, zero, suc, ◌+◌, Bool, ◌≡◌, refl, sym, Option, none, some, List, [], ◌∷◌, Text, lit, str_eq,
  inl, inr, arith, subst,
}
use ship_grip_fim.Auth.Users.{Bcrypt}
use ship_grip_fim.QuickCompare.{ParseTime}
use ship_grip_fim.Hosts.{Credentials}
use ship_grip_fim.Deploy.Jobs.{end_deploy}
use ship_grip_fim.Sessions.{Request, current_session}
use ship_grip_fim.Web.{
  WebConfig, Body, WebWork, scan_of, agent_of, deploy_of, WebState, WebEnv, Response, deploy_status,
}
use ship_grip_fim.Web.Handlers.{web_quick_compare}
use ship_grip_fim.Web.Routes.{
  Handler, index, list_reports, get_report, compare, quick_compare, status, hosts, ping_all,
  remote_command, remote_all, scan, agent_start, agent_stop, sync_all, start_all, deploy_hosts,
  users, need_of, posted, run_handler, who_of, serve,
}
use ship_grip_fim.Web.Access.{
  IsUnmoved, reports_only, if_state, compare-IsUnmoved, hosts-IsUnmoved, ping_all-IsUnmoved,
  remote_all-IsUnmoved, guard_cases, need_of-is_nil,
}
use ship_grip_fim.Web.Process.{
  work_done, take_work, finished, WebEvent, request, work_ends, web_step, is_scan_work,
  is_agent_work, is_deploy_work, total, as_count, IsTidy,
}
use ship_grip_fim.Web.Process.Starts.{
  unmoved-IsTidy, scan-IsTidy, agent_start-IsTidy, agent_stop-IsTidy, deploy-IsTidy, users-IsTidy,
  sync_all-IsTidy, start_all-IsTidy,
}

-- What taking a goroutine leaves.
abbrev IsTaken : (WebWork → ℕ) → List WebWork → Option (WebWork × List WebWork) → Type 0
IsTaken f ws none = Unit
IsTaken f ws (some (w, vs)) = total f ws ≡ f w + total f vs

take-IsTaken : (f : WebWork → ℕ) (i : ℕ) (ws : List WebWork) → IsTaken f ws (take_work i ws)
unfolding take_work
take-IsTaken f i [] = tt
take-IsTaken f zero (w ∷ ws) = refl
take-IsTaken f (suc i) (w ∷ ws) = deeper (take_work i ws) (take-IsTaken f i ws)
  where
    deeper :
        (o : Option (WebWork × List WebWork))
        → IsTaken f ws o
        → IsTaken f (w ∷ ws) (elim o [ none ↦ none | some (v, vs) ↦ some (v, w ∷ vs) ])
    deeper none p = tt
    deeper (some (v, vs)) p = ground arith

-- One goroutine less of a kind, and as many of another.
one_less : (n m : ℕ) (b : Bool) → n ≡ as_count b → n ≡ 1 + m → m ≡ 0
one_less n m b h e = ground arith

none_less : (n m k : ℕ) → n ≡ k → n ≡ 0 + m → m ≡ k
none_less n m k h e = ground arith

finished-IsTidy :
    (s : WebState) (o : Option (WebWork × List WebWork))
    → IsTaken is_scan_work s.work o
    → IsTaken is_agent_work s.work o
    → IsTaken is_deploy_work s.work o
    → IsTidy s
    → IsTidy (finished o s)
unfolding finished work_done end_deploy
finished-IsTidy s none x y z t = t
finished-IsTidy s (some (scan_of c, vs)) x y z t = record {
  scans = one_less _ _ s.flags.scan t.scans x;
  agents = none_less _ _ _ t.agents y;
  deploys = none_less _ _ _ t.deploys z;
  channel = t.channel;
}
finished-IsTidy s (some (agent_of host port, vs)) x y z t = record {
  scans = none_less _ _ _ t.scans x;
  agents = one_less _ _ s.agent_running t.agents y;
  deploys = none_less _ _ _ t.deploys z;
  channel = refl;
}
finished-IsTidy s (some (deploy_of hs alias binary restart, vs)) x y z t = record {
  scans = none_less _ _ _ t.scans x;
  agents = none_less _ _ _ t.agents y;
  deploys = one_less _ _ s.deploy.running t.deploys z;
  channel = t.channel;
}

module _ (bcrypt : Bcrypt) (parse : ParseTime) (send : Credentials → Text → Text → List Text → Text)
    (c : WebConfig) (env : WebEnv) (b : Body) (s : WebState) (t : IsTidy s) where
  still : (s' : WebState) → IsUnmoved s s' → IsTidy s'
  still s' u = unmoved-IsTidy s s' u t

  posted-IsTidy :
      (r : Request) (answer : Response × WebState) → IsTidy answer.1 → IsTidy (posted r s answer).1
  posted-IsTidy r answer u = if_state IsTidy _ _ _ u t

  run-IsTidy :
      (h : Handler) (who : Text × Text) (r : Request)
      → IsTidy (run_handler bcrypt parse send c h who r b env s).1
  unfolding run_handler
  run-IsTidy index who r = t
  run-IsTidy list_reports who r = t
  run-IsTidy get_report who r = t
  run-IsTidy compare who r =
      posted-IsTidy r _ (still _ (compare-IsUnmoved bcrypt parse send c env b s))
  run-IsTidy quick_compare who r =
      posted-IsTidy r _ (unfold web_quick_compare in still _ (reports_only s _))
  run-IsTidy status who r = t
  run-IsTidy hosts who r = still _ (hosts-IsUnmoved bcrypt parse send c env b s)
  run-IsTidy ping_all who r =
      posted-IsTidy r _ (still _ (ping_all-IsUnmoved bcrypt parse send c env b s))
  run-IsTidy remote_command who r = t
  run-IsTidy remote_all (user, role) r =
      posted-IsTidy r _ (still _ (remote_all-IsUnmoved bcrypt parse send c env b s role))
  run-IsTidy scan who r = posted-IsTidy r _ (scan-IsTidy s t c b)
  run-IsTidy agent_start who r = posted-IsTidy r _ (agent_start-IsTidy s t c b)
  run-IsTidy agent_stop who r = posted-IsTidy r _ (agent_stop-IsTidy s t)
  run-IsTidy sync_all who r = posted-IsTidy r _ (sync_all-IsTidy s t send c env)
  run-IsTidy start_all who r = posted-IsTidy r _ (start_all-IsTidy s t env b)
  run-IsTidy deploy_hosts who r =
      if_state IsTidy (str_eq r.method (lit "GET"))
        (deploy_status s.deploy.running s.deploy.output, s) _ t
        (posted-IsTidy r _ (deploy-IsTidy s t env b))
  run-IsTidy users who r = posted-IsTidy r _ (users-IsTidy s t bcrypt c env b)

module _ (bcrypt : Bcrypt) (parse : ParseTime) (send : Credentials → Text → Text → List Text → Text)
    (c : WebConfig) where
  -- Every request and every end of a goroutine keeps this: there is one goroutine that scans while the
  -- flag of the scan is set and none else, the same with the agent and its flag and with the deploy and
  -- its flag, and there is a channel to stop the agent exactly while the agent runs. Other operations
  -- that set the flag of the scan are left out.
  pub web_step-IsTidy :
      (v : WebEvent) (s : WebState) → IsTidy s → IsTidy (web_step bcrypt parse send c v s)
  unfolding web_step serve
  web_step-IsTidy (work_ends i) s t =
      finished-IsTidy s (take_work i s.work) (take-IsTaken is_scan_work i s.work)
        (take-IsTaken is_agent_work i s.work) (take-IsTaken is_deploy_work i s.work) t
  web_step-IsTidy (request now h r b env m) s t =
      let who = who_of (current_session now r m).0 in
      elim (guard_cases now (need_of h) r (run_handler bcrypt parse send c h who r b env s) m s
        (need_of-is_nil h)) [
          | inl e ↦ subst IsTidy (sym e) t
          | inr (a, e) ↦ subst IsTidy (sym e) (run-IsTidy bcrypt parse send c env b s t h who r)
        ]
