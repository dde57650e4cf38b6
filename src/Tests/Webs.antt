-- ===== src/Tests/Webs.antt =====
-- A session of the web GUI.
use ship_grip_fim.Base.{false, ◌≡◌, ◌↔◌, refl, some, [], ◌∷◌, lit, is_nil, ◌||◌, join}
use ship_grip_fim.Hosts.{Credentials}
use ship_grip_fim.WebRemote.{sent, web_remote}
use ship_grip_fim.WebRemote.Checked.{agent_words, empty_part_passes}
use ship_grip_fim.Sessions.{
  WebSession, SessionStore, Request, handled, require_role, current_session,
}
use ship_grip_fim.Sessions.Guard.{Passes, guard_exact}

abbrev bob_session : WebSession
bob_session = record { user = lit "bob"; role = lit "rw"; expires = 100 }

abbrev store : SessionStore
store = (lit "t1", bob_session) ∷ []

abbrev request : Request
request = record {
  method = lit "GET";
  path = lit "/api/scan";
  content_type = [];
  cookie = some (lit "t1");
}

guard_exact_example :
    ((require_role 50 (lit "rw") request (lit "body") store).0 ≡ handled (lit "body")) ↔ (
      (ses : WebSession) × ((current_session 50 request store).0 ≡ some ses)
      × Passes (lit "rw") request ses)
guard_exact_example = guard_exact 50 (lit "rw") request (lit "body") store

abbrev nobody : Credentials
nobody = record { agent_user = lit "u"; agent_password = lit "p" }

host_is_given : is_nil (lit "h") || is_nil (lit "1") ≡ false
unfolding lit
host_is_given = refl

empty_part_passes_example :
    (web_remote nobody (lit "ro") (lit "POST") (
        some (record {
          host = lit "h";
          port = lit "1";
          user = [];
          password = [];
          cmd = [] ∷ lit "scan" ∷ [];
        }))
      ≡ sent nobody (lit "h") (lit "1") (join (lit " ") ([] ∷ lit "scan" ∷ [])))
    × (agent_words (join (lit " ") ([] ∷ lit "scan" ∷ []))
        ≡ agent_words (join (lit " ") (lit "scan" ∷ [])))
empty_part_passes_example =
    empty_part_passes nobody (lit "h") (lit "1") (lit "scan") [] host_is_given
