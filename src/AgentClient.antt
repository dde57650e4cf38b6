-- ===== src/AgentClient.antt =====
-- agent_client.go: the client's side of a connection. TLS and the network are not modelled: a
-- `Connection` is what they give.
pub mod Reading
use ship_grip_fim.Base.{
  ℕ, Bool, true, false, not, ◌≡◌, refl, Option, none, some, List, [], ◌∷◌, ◌++◌, Text, lit, str_eq,
  if◌then◌else◌, is_nil, has_prefix, drop, length, trim_space, split, Result, ok, err,
}

-- What happens to a connection: it fails with an error before the reply to "auth", or it has a
-- reply, and then the write of the command fails or the text that can be read comes.
pub data Connection : Type 0 where
  no_session : Text → Connection
  replied : Text → Result Text Text → Connection

unfoldable pub trim_prefix : Text → Text → Text
trim_prefix p s = if has_prefix p s then drop (length p) s else s

unfoldable pub open_agent_session : Connection → Result Text (Result Text Text)
unfolding trim_prefix
open_agent_session (no_session e) = err e
open_agent_session (replied reply stream) =
    if not (has_prefix (lit "OK") reply)
    then err (trim_prefix (lit "ERROR - ") (trim_space reply))
    else ok stream

unfoldable pub is_sentinel : Text → Bool
is_sentinel l = str_eq (trim_space l) (lit "---DONE---")

-- The loop over `ReadString`: the last piece has no newline, and comes with an error.
unfoldable pub read_pieces : List Text → Text
unfolding is_sentinel
read_pieces [] = []
read_pieces (p ∷ []) = if is_sentinel p then [] else p
read_pieces (p ∷ q ∷ ps) =
    let rest = read_pieces (q ∷ ps) in if is_sentinel (p ++ (10 ∷ [])) then [] else p ++ (10 ∷ rest)

unfoldable pub read_response : Text → Text
unfolding read_pieces
read_response s = read_pieces (split 10 s)

unfoldable pub run_remote_command_to_string : Connection → Text
unfolding open_agent_session read_response
run_remote_command_to_string conn = elim (open_agent_session conn) [
  | err e ↦ lit "ERROR - " ++ (e ++ (10 ∷ []))
  | ok (err e) ↦ lit "ERROR - failed to send command: " ++ (e ++ (10 ∷ []))
  | ok (ok s) ↦ read_response s
]
