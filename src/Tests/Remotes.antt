-- ===== src/Tests/Remotes.antt =====
-- Two hosts, a response, a synchronisation, and settings.
use ship_grip_fim.Base.{
  ℕ, zero, suc, ◌<◌, true, false, ◌≡◌, refl, List, [], ◌∷◌, ◌++◌, map, Text, lit, arith, All, any,
  ◌==◌, length, unlines, split, str_eq, trim_space,
}
use ship_grip_fim.Report.Store.{valid_report_id}
use ship_grip_fim.Hosts.{Credentials, RemoteHost, host_result, run_on_all_hosts}
use ship_grip_fim.Hosts.Order.{has, any_order}
use ship_grip_fim.AgentClient.{read_response, is_sentinel}
use ship_grip_fim.AgentClient.Reading.{IsBodyLine, response_read}
use ship_grip_fim.Sync.{report_ids, sync_host_reports, Write, written}
use ship_grip_fim.Sync.Copies.{IsSound, sync_host_reports_lem}

abbrev host_named : Text → RemoteHost
host_named n = record {
  alias = n;
  address = n;
  port = lit "1";
  path = [];
  report_name = [];
  ssh_user = [];
  binary_path = [];
  agent_user = [];
  agent_password = [];
}

abbrev two_hosts : List RemoteHost
two_hosts = host_named (lit "a") ∷ host_named (lit "b") ∷ []

abbrev echo : Credentials → Text → Text → List Text → Text
echo c address port args = address

abbrev anyone : Credentials
anyone = record { agent_user = lit "u"; agent_password = lit "p" }

both_end : (i : ℕ) → i < length two_hosts → has i (1 ∷ 0 ∷ []) ≡ true
both_end zero h = refl
both_end (suc zero) h = refl
both_end (suc (suc i)) h = absurd (omega arith)

any_order_example :
    run_on_all_hosts echo anyone [] two_hosts (1 ∷ 0 ∷ [])
    ≡ map (host_result echo anyone []) two_hosts
any_order_example = any_order echo anyone [] two_hosts (1 ∷ 0 ∷ []) both_end

body_line : All IsBodyLine (lit "idle" ∷ [])
unfolding is_sentinel lit str_eq trim_space
body_line = ((refl, refl), tt)

response_read_example :
    (read_response (unlines (lit "idle" ∷ []) ++ (lit "---DONE---" ++ (10 ∷ lit "x")))
      ≡ unlines (lit "idle" ∷ []))
    × (any (λ d. d == 10) (lit "x") ≡ false
        → is_sentinel (lit "x") ≡ false
        → read_response (unlines (lit "idle" ∷ []) ++ lit "x")
          ≡ unlines (lit "idle" ∷ []) ++ lit "x")
response_read_example = response_read (lit "idle" ∷ []) (lit "x") body_line

abbrev fetched : Text → Text
fetched id = lit "n,t,h,/p"

abbrev all_written : Text → Write
all_written id = written

sync_host_reports_example :
    All (λ id. valid_report_id id ≡ true) (report_ids (split 10 (lit "a_1")))
    × IsSound fetched all_written
        (lit "/r")
        (report_ids (split 10 (lit "a_1")))
        []
        (sync_host_reports (lit "a_1") true fetched all_written (lit "/r") [])
sync_host_reports_example = sync_host_reports_lem fetched all_written (lit "/r") (lit "a_1") true []
