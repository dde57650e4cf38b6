-- ===== src/Hosts/Tables.antt =====
-- hosts.go: the tables of hosts and of their answers, and the start of agents over SSH. `%q`, the
-- directory of a path and the call of ssh are parameters.
use ship_grip_fim.Base.{
  ℕ, zero, suc, ◌-◌, ◌||◌, Option, none, some, List, [], ◌∷◌, ◌++◌, map, Text, lit, if◌then◌else◌,
  is_nil, length, trim_space, join, unlines,
}
use ship_grip_fim.Hosts.{RemoteHost, Credentials, HostResult, selected}

unfoldable pub repeat : ℕ → ℕ → Text
repeat zero c = []
repeat (suc n) c = c ∷ repeat n c

-- fmt's %-<width>s
unfoldable pub pad : ℕ → Text → Text
unfolding repeat
pad width s = s ++ repeat (width - length s) b' '

-- Padded columns with a space between them, and a last one as it is.
unfoldable pub columns : List (ℕ × Text) → Text → Text
unfolding pad
columns [] last = last
columns ((width, s) ∷ cs) last = pad width s ++ (b' ' ∷ columns cs last)

-- `pingAllString`, of the answers to "status".
unfoldable pub ping_all_string : List HostResult → Text
unfolding columns repeat
ping_all_string results = unlines (
    columns ((18, lit "ALIAS") ∷ []) (lit "STATUS")
    ∷ repeat 45 b'-'
    ∷ map (λ r. columns ((18, r.alias) ∷ []) (trim_space r.output)) results)

unfoldable pub host_row : Credentials → RemoteHost → Text
unfolding columns
host_row c h =
    columns
      ((18, h.alias)
        ∷ (20, h.address)
        ∷ (6, h.port)
        ∷ (25, h.path)
        ∷ (20, h.report_name)
        ∷ (10, h.ssh_user)
        ∷ [])
      (if is_nil h.agent_user then c.agent_user ++ lit " (default)" else h.agent_user)

-- What `cmdHosts` prints of a hosts file that can be read.
unfoldable pub hosts_table : Credentials → Text → List RemoteHost → Text
unfolding host_row repeat
hosts_table c hosts_config [] = unlines ((lit "No hosts configured in " ++ hosts_config) ∷ [])
hosts_table c hosts_config (h ∷ hs) = unlines (
    columns
      ((18, lit "ALIAS")
        ∷ (20, lit "ADDRESS")
        ∷ (6, lit "PORT")
        ∷ (25, lit "PATH")
        ∷ (20, lit "REPORT_NAME")
        ∷ (10, lit "SSH_USER")
        ∷ [])
      (lit "AGENT_USER")
    ∷ repeat 110 b'-'
    ∷ map (host_row c) (h ∷ hs))

abbrev pub tag : RemoteHost → Text
tag h = lit "[" ++ (h.alias ++ lit "] ")

module _ (quote dir_of : Text → Text) where
  unfoldable pub start_command : RemoteHost → Text
  start_command h = join [] (
      lit "cd "
      ∷ quote (dir_of h.binary_path)
      ∷ lit " && nohup "
      ∷ quote h.binary_path
      ∷ lit " --agentHost=0.0.0.0 --agentPort="
      ∷ h.port
      ∷ lit " agent > agent.log 2>&1 < /dev/null &"
      ∷ [])

-- `ssh` gives the output of a remote command on a target, and whether it failed with a message.
module _ (quote dir_of : Text → Text) (ssh : Text → Text → Option Text × Text) where
  ssh_answer : RemoteHost → Option Text × Text → Text
  ssh_answer h (some failure, out) =
      join [] (tag h ∷ lit "ERROR - ssh failed: " ∷ failure ∷ (10 ∷ []) ∷ out ∷ (10 ∷ []) ∷ [])
  ssh_answer h (none, out) = join [] (
      tag h
      ∷ lit "Agent started (port "
      ∷ h.port
      ∷ lit ", log: "
      ∷ dir_of h.binary_path
      ∷ lit "/agent.log)"
      ∷ (10 ∷ [])
      ∷ [])

  unfoldable pub start_agent_on_host : RemoteHost → Text
  unfolding start_command ssh_answer
  start_agent_on_host h =
      let target = h.ssh_user ++ (b'@' ∷ h.address) in
      if is_nil h.ssh_user || is_nil h.binary_path
      then join [] (
          tag h
          ∷ lit "ERROR - sshUser and binaryPath must be set in hosts.conf to use 'start'"
          ∷ (10 ∷ [])
          ∷ [])
      else join [] (
          tag h
          ∷ lit "Starting agent on "
          ∷ target
          ∷ lit " ..."
          ∷ (10 ∷ [])
          ∷ ssh_answer h (ssh target (start_command quote dir_of h))
          ∷ [])

  -- `startAgents`, of a hosts file that can be read.
  unfoldable pub start_agents : Text → List RemoteHost → Text
  unfolding start_agent_on_host
  start_agents alias hosts =
      if is_nil (selected alias hosts)
      then join [] (lit "ERROR - no host found with alias: " ∷ alias ∷ (10 ∷ []) ∷ [])
      else join [] (map start_agent_on_host (selected alias hosts))

-- The calls of ssh that `startAgents` makes: a host that lacks a user or a binary has none.
module _ (quote dir_of : Text → Text) where
  unfoldable pub ssh_calls : List RemoteHost → List (Text × Text)
  ssh_calls [] = []
  ssh_calls (h ∷ hs) =
      let rest = ssh_calls hs in
      if is_nil h.ssh_user || is_nil h.binary_path
      then rest
      else (h.ssh_user ++ (b'@' ∷ h.address), start_command quote dir_of h) ∷ rest
