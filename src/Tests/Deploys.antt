-- ===== src/Tests/Deploys.antt =====
-- A deploy to a host on which every command succeeds, and two hosts.
use ship_grip_fim.Base.{Bool, false, [], Text, lit}
use ship_grip_fim.Hosts.{RemoteHost}

abbrev pub ready : RemoteHost
ready = record {
  alias = lit "a";
  address = lit "h";
  port = lit "1";
  path = lit "/p";
  report_name = lit "n";
  ssh_user = lit "root";
  binary_path = lit "/opt/x";
  agent_user = [];
  agent_password = [];
}

abbrev opt : Text → Text
opt p = lit "/opt"

abbrev same : Text → Text
same p = p

abbrev never : RemoteHost → Bool
never h = false
