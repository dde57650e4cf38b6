-- ===== src/Web/Process/Starts.antt =====
-- web_gui.go: the handlers that start or stop something keep the flags and the goroutines together.
use ship_grip_fim.Base.{
  ℕ, ◌+◌, Bool, true, false, ◌||◌, ◌≡◌, refl, ap, ◌∙◌, sym, Option, none, some, List, ◌∷◌, Text,
  if◌then◌else◌, arith, is_some, Result, ok, err,
}
use ship_grip_fim.Auth.Users.{Bcrypt}
use ship_grip_fim.Hosts.{RemoteHost, Credentials, HostsError, parse_hosts_config}
use ship_grip_fim.Scheduler.History.{is_busy}
use ship_grip_fim.Deploy.Jobs.{DeployJob, start_deploy}
use ship_grip_fim.Web.{WebConfig, Body, agent_of, WebState, WebEnv, Response}
use ship_grip_fim.Web.Handlers.{sync_to, start_with, web_sync_all, web_start_all}
use ship_grip_fim.Web.Handlers.{
  web_scan, web_agent_start, web_agent_stop, web_deploy_hosts, web_users, deploy_to, with_hosts,
  close_stop,
}
use ship_grip_fim.Web.Access.{IsUnmoved, for_hosts_both, if_state}
use ship_grip_fim.Web.Process.{is_scan_work, is_agent_work, is_deploy_work, total, as_count, IsTidy}

module _ (s s' : WebState) where
  pub unmoved-IsTidy : IsUnmoved s s' → IsTidy s → IsTidy s'
  unmoved-IsTidy u t = record {
    scans =
        ap (total is_scan_work) u.same_work
        ∙ t.scans
        ∙ ap (λ f. as_count f.scan) (sym u.same_flags);
    agents = ap (total is_agent_work) u.same_work ∙ t.agents ∙ ap as_count (sym u.same_agent);
    deploys =
        ap (total is_deploy_work) u.same_work
        ∙ t.deploys
        ∙ ap (λ d. as_count d.running) (sym u.same_deploy);
    channel = ap is_some u.same_stop ∙ t.channel ∙ sym u.same_agent;
  }

-- The branches of a test, each with the value of the test.
if_known :
    (P : WebState → Type 0) (b : Bool) (x y : Response × WebState)
    → (b ≡ true → P x.1)
    → (b ≡ false → P y.1)
    → P (if b then x else y).1
if_known P true x y p q = p refl
if_known P false x y p q = q refl

-- One more goroutine of a kind of which there was none.
one_more : (n : ℕ) (b : Bool) → n ≡ as_count b → b ≡ false → 1 + n ≡ 1
one_more n b h e = ground arith

none_more : (n m : ℕ) → n ≡ m → 0 + n ≡ m
none_more n m h = ground arith

begins :
    (j : DeployJob)
    → (start_deploy j).0 ≡ true
    → (j.running ≡ false) × ((start_deploy j).1.running ≡ true)
unfolding start_deploy
begins j h = ground arith

module _ (s : WebState) (t : IsTidy s) where
  pub scan-IsTidy : (c : WebConfig) (b : Body) → IsTidy (web_scan c b s).1
  unfolding web_scan is_busy
  scan-IsTidy c b =
      if_known IsTidy (is_busy s.flags) _ _ (λ e. t)
        (λ e. record {
          scans = one_more _ _ t.scans (not_scan s.flags.scan s.flags.compare e);
          agents = none_more _ _ t.agents;
          deploys = none_more _ _ t.deploys;
          channel = t.channel;
        })
    where
      not_scan : (a b : Bool) → a || b ≡ false → a ≡ false
      not_scan a b e = ground arith

  pub agent_start-IsTidy : (c : WebConfig) (b : Body) → IsTidy (web_agent_start c b s).1
  unfolding web_agent_start
  agent_start-IsTidy c b = if_known IsTidy s.agent_running _ _ (λ e. t) (begun _ _)
    where
      begun :
          (host port : Text)
          → s.agent_running ≡ false
          → IsTidy (record s {
            agent_stop = some false;
            agent_running = true;
            work = agent_of host port ∷ s.work;
          })
      begun host port e = record {
        scans = none_more _ _ t.scans;
        agents = one_more (total is_agent_work s.work) s.agent_running t.agents e;
        deploys = none_more _ _ t.deploys;
        channel = refl;
      }

  pub agent_stop-IsTidy : IsTidy (web_agent_stop s).1
  unfolding web_agent_stop close_stop
  agent_stop-IsTidy = if_state IsTidy _ _ _ t (stop s.agent_stop refl)
    where
      stop : (x : Option Bool) → s.agent_stop ≡ x → IsTidy (close_stop x s).1
      stop none e = t
      stop (some true) e = t
      stop (some false) e = record {
        scans = t.scans;
        agents = t.agents;
        deploys = t.deploys;
        channel = ap is_some (sym e) ∙ t.channel;
      }

  pub deploy-IsTidy : (env : WebEnv) (b : Body) → IsTidy (web_deploy_hosts env b s).1
  unfolding web_deploy_hosts with_hosts deploy_to
  deploy-IsTidy env b =
      for_hosts_both IsTidy s (deploy_to b s) (parse_hosts_config env.hosts_file) t
        (λ hs. deploy hs)
    where
      deploy : (hs : List RemoteHost) → IsTidy (deploy_to b s hs).1
      deploy hs =
          if_known IsTidy (start_deploy s.deploy).0 _ _
            (λ e. record {
              scans = none_more _ _ t.scans;
              agents = none_more _ _ t.agents;
              deploys =
                  one_more (total is_deploy_work s.work) s.deploy.running t.deploys
                    (begins s.deploy e).0
                  ∙ ap as_count (sym (begins s.deploy e).1);
              channel = t.channel;
            })
            (λ e. t)

  pub users-IsTidy :
      (bcrypt : Bcrypt) (c : WebConfig) (env : WebEnv) (b : Body)
      → IsTidy (web_users bcrypt c env b s).1
  unfolding web_users
  users-IsTidy bcrypt c env b =
      if_state IsTidy _ _ _ t
        (record { scans = t.scans; agents = t.agents; deploys = t.deploys; channel = t.channel })

  pub sync_all-IsTidy :
      (send : Credentials → Text → Text → List Text → Text) (c : WebConfig) (env : WebEnv)
      → IsTidy (web_sync_all send c env s).1
  unfolding web_sync_all with_hosts sync_to
  sync_all-IsTidy send c env =
      for_hosts_both IsTidy s (sync_to send c env s) (parse_hosts_config env.hosts_file) t (λ hs.
        record { scans = t.scans; agents = t.agents; deploys = t.deploys; channel = t.channel })

  pub start_all-IsTidy : (env : WebEnv) (b : Body) → IsTidy (web_start_all env b s).1
  unfolding web_start_all start_with
  start_all-IsTidy env b = by_hosts (parse_hosts_config env.hosts_file)
    where
      by_hosts : (r : Result HostsError (List RemoteHost)) → IsTidy (start_with env b r s).1
      by_hosts (err e) = t
      by_hosts (ok hs) = record {
        scans = t.scans;
        agents = t.agents;
        deploys = t.deploys;
        channel = t.channel;
      }
