-- ===== src/WebRemote/Checked.antt =====
-- web_gui.go: which command the agent runs for a request that passed the check of its role.
use ship_grip_fim.Base.{
  false, ◌≡◌, refl, sym, ap, ◌∙◌, ◌||◌, List, [], ◌∷◌, ◌++◌, Text, lit, arith, if◌then◌else◌, any,
  All, is_nil, is_space, fields, split_by, split_by-append, split_by_whole, trim_space, trim_left,
  trim_right, trim_right-append, trim_space_fixed, join, append_assoc, some, str_eq,
}
use ship_grip_fim.Auth.Roles.{role_allows, command_role, role_ro, role_rank}
use ship_grip_fim.Hosts.{Credentials}
use ship_grip_fim.WebRemote.{
  RemoteRequest, permission_denied, sent, request_credentials, web_remote_request, web_remote,
}

-- A word of a command line.
abbrev pub IsPlain : Text → Type 0
IsPlain w = (any is_space w ≡ false) × (is_nil w ≡ false)

fields-join : (ws : List Text) → All IsPlain ws → fields (join (lit " ") ws) ≡ ws
unfolding fields lit split_by join
fields-join [] h = refl
fields-join (w ∷ []) h = rw (split_by_whole is_space w h.0.0) (ground (arith, h.0.1))
fields-join (w ∷ v ∷ ws) h =
    rw (split_by-append is_space w 32 (join (lit " ") (v ∷ ws)) h.0.0 (unfold is_space in refl))
      (ground (arith, h.0.1, fields-join (v ∷ ws) h.1))

trim_right_word : (w : Text) → any is_space w ≡ false → trim_right w ≡ w
unfolding trim_right
trim_right_word [] h = refl
trim_right_word (c ∷ w) h = ground (arith, trim_right_word w)

join-not_nil : (w : Text) (ws : List Text) → IsPlain w → is_nil (join (lit " ") (w ∷ ws)) ≡ false
unfolding join
join-not_nil (c ∷ w) [] h = refl
join-not_nil (c ∷ w) (v ∷ ws) h = refl
join-not_nil [] ws h = absurd (ground (arith, h.1))

trim_right-join :
    (ws : List Text) → All IsPlain ws → trim_right (join (lit " ") ws) ≡ join (lit " ") ws
unfolding lit join
trim_right-join [] h = unfold trim_right in refl
trim_right-join (w ∷ []) h = trim_right_word w h.0.0
trim_right-join (w ∷ v ∷ ws) h =
    let rest = join (lit " ") (v ∷ ws) in
    let e = append_assoc w (32 ∷ []) rest in
    sym (ap trim_right e)
    ∙ trim_right-append (w ++ (32 ∷ [])) rest (trim_right-join (v ∷ ws) h.1)
        (join-not_nil v ws h.1.0)
    ∙ e

trim_space-join :
    (ws : List Text) → All IsPlain ws → trim_space (join (lit " ") ws) ≡ join (lit " ") ws
unfolding join lit
trim_space-join [] h = unfold trim_space trim_left trim_right in refl
trim_space-join ((c ∷ w) ∷ []) h =
    trim_space_fixed c w (ground (arith, h.0.0)) (trim_right-join ((c ∷ w) ∷ []) h)
trim_space-join ((c ∷ w) ∷ v ∷ ws) h =
    trim_space_fixed c _ (ground (arith, h.0.0)) (trim_right-join ((c ∷ w) ∷ v ∷ ws) h)
trim_space-join ([] ∷ ws) h = absurd (ground (arith, h.0.1))

-- The words that an agent reads in a line.
abbrev pub agent_words : Text → List Text
agent_words line = fields (trim_space line)

-- Of a command whose parts are words, the web server sends nothing if the role does not suffice for
-- it, and otherwise the agent reads exactly these words: the command that was checked is the one
-- that runs.
pub words_are_checked :
    (c : Credentials) (role : Text) (r : RemoteRequest)
    → is_nil r.host || is_nil r.port || is_nil r.cmd ≡ false
    → All IsPlain r.cmd
    → (web_remote c role (lit "POST") (some r) ≡ (
        if role_allows role (command_role r.cmd)
        then sent (request_credentials c r) r.host r.port (join (lit " ") r.cmd)
        else permission_denied (command_role r.cmd)))
      × (agent_words (join (lit " ") r.cmd) ≡ r.cmd)
unfolding web_remote web_remote_request lit str_eq
words_are_checked c role r g h =
    (ground (arith, g), ap fields (trim_space-join r.cmd h) ∙ fields-join r.cmd h)

-- Any command at all, in a request without credentials and with an empty part in front, passes the
-- check for a user with the ro role; the agent gets it with the credentials of the web server's
-- configuration, and reads the words of the command without that part.
pub empty_part_passes :
    (c : Credentials) (host port w : Text) (ws : List Text)
    → is_nil host || is_nil port ≡ false
    → let r : RemoteRequest = record {
      host = host;
      port = port;
      user = [];
      password = [];
      cmd = [] ∷ w ∷ ws;
    } in
      (web_remote c role_ro (lit "POST") (some r) ≡ sent c host port (join (lit " ") ([] ∷ w ∷ ws)))
      × (agent_words (join (lit " ") ([] ∷ w ∷ ws)) ≡ agent_words (join (lit " ") (w ∷ ws)))
unfolding web_remote web_remote_request request_credentials lit str_eq role_allows role_rank
    command_role join
empty_part_passes c host port w ws g =
    (ground (arith, g), ap fields (unfold trim_space trim_left is_space in refl))
