-- ===== src/Tests/Agents.antt =====
-- An idle agent, two clients and a job.
use ship_grip_fim.Base.{
  ℕ, ◌+◌, true, false, ◌≡◌, refl, none, some, Option, List, [], ◌∷◌, Text, lit, fields, trim_space,
  missing,
}
use ship_grip_fim.Report.Store.{ReportConfig}
use ship_grip_fim.Agent.{AgentConfig, Agent, Env}
use ship_grip_fim.Agent.Command.{Client, handle_line}
use ship_grip_fim.Agent.Steps.{Event, line, timer, ends, Ending, step, run}
use ship_grip_fim.Agent.Exclusion.{IsExclusive, step-IsExclusive}
use ship_grip_fim.Agent.Protocol.{done_count, pending, one_done_each}
use ship_grip_fim.Agent.Permission.{IsHarmless, ro_client-IsHarmless}
use ship_grip_fim.Tests.Instances.{toy_bcrypt, toy_cron}

abbrev pub home_reports : ReportConfig
home_reports = record {
  report_dir = lit "/r";
  data_source = lit "file";
  report_name = lit "n";
  host = lit "h";
  path = lit "/p";
  remove_base_path = false;
  ignored = λ p. false;
}

abbrev config : AgentConfig
config = record { users_db = lit "users.db"; report = home_reports }

abbrev no_times : Text → Text → Option ℕ
no_times layout s = none

abbrev idle_agent : Agent toy_cron
idle_agent = record {
  flags = record { scan = false; compare = false };
  users = record { file = missing; temp = none };
  reports = record { files = []; last_compare = none };
  last_scan = none;
  sched = none;
  history = [];
  background = [];
}

abbrev env : Env
env = record {
  users_fail = λ s. false;
  sched_fails = false;
  salt = 0;
  entries = some [];
  time = lit "t";
  compare_write = ship_grip_fim.Report.Store.done;
}

abbrev alice : Client
alice = record { number = 1; user = lit "alice"; role = lit "rw" }

abbrev bob : Client
bob = record { number = 2; user = lit "bob"; role = lit "ro" }

abbrev ending : Ending
ending = record {
  panics = false;
  path_found = true;
  sums = (lit "/p/a", lit "00") ∷ [];
  time = lit "t";
  now = 9;
  write = ship_grip_fim.Report.Store.done;
  error_text = [];
}

abbrev story : List Event
story =
    line env alice (lit "scan")
    ∷ line env bob (lit "compare a b")
    ∷ timer (lit "nightly") 5
    ∷ line env bob (lit " ")
    ∷ ends 0 ending
    ∷ []

step-IsExclusive_example :
    IsExclusive
      (step toy_bcrypt toy_cron no_times config (line env alice (lit "scan")) idle_agent).1
step-IsExclusive_example =
    step-IsExclusive toy_bcrypt toy_cron no_times config (line env alice (lit "scan")) idle_agent
      (refl, refl)

one_done_each_example :
    done_count 1 (run toy_bcrypt toy_cron no_times config story idle_agent).0
      + pending 1 (run toy_bcrypt toy_cron no_times config story idle_agent).1.background
    ≡ 1
unfolding fields trim_space lit
one_done_each_example = one_done_each toy_bcrypt toy_cron no_times config 1 story idle_agent

ro_client-IsHarmless_example :
    IsHarmless toy_cron bob idle_agent (fields (trim_space (lit "user add eve password"))) (
      handle_line toy_bcrypt toy_cron no_times config env bob idle_agent
        (lit "user add eve password"))
ro_client-IsHarmless_example =
    ro_client-IsHarmless toy_bcrypt toy_cron no_times config env bob refl idle_agent
      (lit "user add eve password")
