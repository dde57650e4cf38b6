-- ===== src/WebRemote.antt =====
-- web_gui.go: /api/remote, which passes a command of a logged-in user on to an agent.
pub mod Checked
use ship_grip_fim.Base.{
  ℕ, Bool, true, false, ◌||◌, not, Option, none, some, List, [], ◌∷◌, Text, lit, str_eq,
  if◌then◌else◌, is_nil, join,
}
use ship_grip_fim.Auth.Roles.{role_allows, command_role}
use ship_grip_fim.Hosts.{Credentials}

-- The decoded body.
pub record RemoteRequest : Type 0 where
  pub host : Text
  pub port : Text
  pub user : Text
  pub password : Text
  pub cmd : List Text

-- `sent` carries the credentials, the agent, and the command line that `runRemoteCommandToString`
-- writes, without its newline.
pub data Answer : Type 0 where
  post_required fields_required : Answer
  permission_denied : Text → Answer
  sent : Credentials → Text → Text → Text → Answer

-- The configured credentials unless the request has its own.
unfoldable pub request_credentials : Credentials → RemoteRequest → Credentials
request_credentials c r = record {
  agent_user = if not (is_nil r.user) then r.user else c.agent_user;
  agent_password = if not (is_nil r.password) then r.password else c.agent_password;
}

unfoldable pub web_remote_request : Credentials → Text → RemoteRequest → Answer
unfolding request_credentials
web_remote_request c role r =
    if is_nil r.host || is_nil r.port || is_nil r.cmd
    then fields_required
    else if not (role_allows role (command_role r.cmd))
    then permission_denied (command_role r.cmd)
    else sent (request_credentials c r) r.host r.port (join (lit " ") r.cmd)

-- `webRemote`, for the session's role; a body that cannot be decoded is `none`.
unfoldable pub web_remote : Credentials → Text → Text → Option RemoteRequest → Answer
unfolding web_remote_request
web_remote c role method body =
    if not (str_eq method (lit "POST"))
    then post_required
    else elim body [ none ↦ fields_required | some r ↦ web_remote_request c role r ]
