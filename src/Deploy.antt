-- ===== src/Deploy.antt =====
-- deploy.go: the steps of a deploy to one host, all hosts, and the background job of the web server.
-- A remote command is a constructor with its arguments, in place of its quoted text. filepath.Dir and
-- filepath.Base are the parameters `dir` and `base`.
pub mod Copies
pub mod Jobs
use ship_grip_fim.Base.{
  ℕ, suc, Bool, true, false, ◌&&◌, ◌||◌, not, Option, none, some, List, [], ◌∷◌, ◌++◌, Text, lit,
  str_eq, if◌then◌else◌, is_nil, has_prefix, drop, length, trim_space, scan_lines, max_scan_token,
  Read,
}
use ship_grip_fim.Hosts.{RemoteHost}
use ship_grip_fim.KnownAgents.{pin_known_agent}

pub data Action : Type 0 where
  make_dir test_exists install stop : Text → Action
  copy : Text → Text → Action
  fingerprint : Text → Text → Action
  start : Text → Text → Text → Action

-- The result of an action, which may depend on those before it: whether it succeeds, and its output.
abbrev pub Ssh : Type 0
Ssh = List Action → Action → Bool × Text

unfoldable pub last_fingerprint : Text → List Text → Text
last_fingerprint fp [] = fp
last_fingerprint fp (raw ∷ ls) =
    let line = trim_space raw in
    last_fingerprint (if has_prefix (lit "SHA256:") line then line else fp) ls

unfoldable pub parse_fingerprint : Text → Text
unfolding last_fingerprint
parse_fingerprint output = last_fingerprint [] (scan_lines max_scan_token output).0

pub data DeployError : Type 0 where
  not_configured mkdir_failed binary_not_copied not_installed not_stopped not_started : DeployError
  file_not_copied : Text → DeployError

-- The actions so far, the known_agents file, and the error if the deploy broke off.
pub record Deployed : Type 0 where
  pub log : List Action
  pub known : Read
  pub failure : Option DeployError

unfoldable pub new_path : Text → Text
new_path p = p ++ lit ".new"

-- The second deploy, unless there is an error.
unfoldable pub unless_failed : Option DeployError → Deployed → Deployed → Deployed
unless_failed (some e) d x = d
unless_failed none d x = x

module _ (ssh : Ssh) where
  -- An action, of which the failure ends the deploy with the error.
  unfoldable pub must : Action → DeployError → Deployed → Deployed
  must a e d = elim d.failure [
    | some f ↦ d
    | none ↦ record d { log = d.log ++ a ∷ []; failure = if (ssh d.log a).0 then none else some e }
  ]

module _ (ssh : Ssh) (dir base : Text → Text) (local : Text → Bool) (pin_fails : Bool) where
  -- One configuration file: `local` says whether it is a file here.
  unfoldable pub try_file : Text → Text → Deployed → Deployed
  unfolding must
  try_file target_dir f d =
      let remote = target_dir ++ (b'/' ∷ base f) in
      let tested = record d { log = d.log ++ test_exists remote ∷ [] } in
      if is_nil f || not (local f)
      then d
      else if (ssh d.log (test_exists remote)).0
      then tested
      else must ssh (copy f remote) (file_not_copied (base f)) tested

  unfoldable pub deploy_file : Text → Text → Deployed → Deployed
  unfolding try_file unless_failed
  deploy_file target_dir f d = unless_failed d.failure d (try_file target_dir f d)

  unfoldable pub deploy_files : Text → List Text → Deployed → Deployed
  unfolding deploy_file
  deploy_files target_dir [] d = d
  deploy_files target_dir (f ∷ fs) d = deploy_files target_dir fs (deploy_file target_dir f d)

  pinned : RemoteHost → Bool × Text → Read → Read
  pinned h (success, output) known =
      if not success || is_nil (parse_fingerprint output)
      then known
      else (pin_known_agent pin_fails (h.address ++ (b':' ∷ h.port)) (parse_fingerprint output)
          known).1

  -- A fingerprint that cannot be read or pinned is only a warning.
  unfoldable pub pin_step : RemoteHost → Deployed → Deployed
  unfolding pinned parse_fingerprint
  pin_step h d =
      let a = fingerprint (dir h.binary_path) h.binary_path in
      elim d.failure [
        | some e ↦ d
        | none ↦ record d { log = d.log ++ a ∷ []; known = pinned h (ssh d.log a) d.known }
      ]

  unfoldable pub restart_step : RemoteHost → Bool → Deployed → Deployed
  unfolding must
  restart_step h false d = d
  restart_step h true d =
      must ssh (start (dir h.binary_path) h.binary_path h.port) not_started
        (must ssh (stop h.binary_path) not_stopped d)

  -- `deployToHost`: `files` are those of `deployConfigFiles`.
  unfoldable pub deploy_to_host : List Text → Text → Bool → RemoteHost → Read → Deployed
  unfolding deploy_files pin_step restart_step new_path
  deploy_to_host files binary restart h known =
      let first : Deployed = record { log = []; known = known; failure = none } in
      if is_nil h.ssh_user || is_nil h.binary_path
      then record first { failure = some not_configured }
      else restart_step h restart (
          pin_step h (
            deploy_files (dir h.binary_path) files (
              must ssh (install h.binary_path) not_installed (
                must ssh (copy binary (new_path h.binary_path)) binary_not_copied
                  (must ssh (make_dir (dir h.binary_path)) mkdir_failed first)))))
