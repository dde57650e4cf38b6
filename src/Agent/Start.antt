-- ===== src/Agent/Start.antt =====
-- agent_server.go: `startAgentServerWithStop` from the certificate to the first connection. The loop
-- over the connections is that of Agent.Steps.
pub mod Again
use ship_grip_fim.Base.{
  ℕ, Bool, true, false, Option, none, some, List, Text, if◌then◌else◌, Read, missing, failed,
  contents, Result, ok, err,
}
use ship_grip_fim.Auth.Users.{Bcrypt}
use ship_grip_fim.Auth.File.{SaveStep, UsersDir}
use ship_grip_fim.Auth.Command.{Reply, ensure_default_user, using_default_password}
use ship_grip_fim.QuickCompare.{ParseTime}
use ship_grip_fim.Metrics.{ScanSeen, CompareSeen, init_agent_state}
use ship_grip_fim.Scheduler.Jobs.{Cron, Scheduler, init_scheduler}
use ship_grip_fim.Sync.{Write}
use ship_grip_fim.Certs.{CertFiles, CertError, exists, load_or_create_agent_cert}

-- The files that a start reads and makes.
pub record Disk : Type 0 where
  pub certs : CertFiles
  pub users : UsersDir
  pub schedule : Read

-- How the calls of the system go: a new pair, the writes, the salt, the names and contents of the
-- reports, and whether the address can be listened on.
pub record StartEnv : Type 0 where
  pub made : Option (Text × Text)
  pub how_key : Write
  pub how_cert : Write
  pub users_fail : SaveStep → Bool
  pub salt : ℕ
  pub names : Option (List Text)
  pub open_file : Text → Option Text
  pub listens : Bool

module _ (bcrypt : Bcrypt) (cron : Cron) (parse : ParseTime) {Cert : Type 0}
    (pair : Text → Text → Option Cert) (users_db : Text) where
  -- What the agent has when it listens.
  pub record Started : Type 0 where
    pub cert : Cert
    pub cert_created : Bool
    pub users_created : Bool
    pub default_password : Bool
    pub known : Option ScanSeen × Option CompareSeen
    pub sched : Scheduler cron

  pub data Start : Type 0 where
    certificate_failed : CertError → Start
    users_failed : Reply → Start
    -- the scheduler was started and is stopped
    not_listening : Start
    listening : Started → Start

  unfoldable pub after_users :
      StartEnv → Cert → Bool → Result Reply Bool × UsersDir → Disk → Start × Disk
  after_users env cert created (err reply, users) d =
      (users_failed reply, record d { users = users })
  after_users env cert created (ok users_created, users) d =
      let a : Started = record {
        cert = cert;
        cert_created = created;
        users_created = users_created;
        default_password = using_default_password bcrypt users_db users.file;
        known = init_agent_state parse env.names env.open_file;
        sched = init_scheduler cron d.schedule;
      } in
      (if env.listens then listening a else not_listening, record d { users = users })

  unfoldable pub after_cert :
      StartEnv → Result CertError (Cert × Bool) × CertFiles → Disk → Start × Disk
  unfolding after_users
  after_cert env (err e, certs) d = (certificate_failed e, record d { certs = certs })
  after_cert env (ok (cert, created), certs) d =
      after_users env cert created
        (ensure_default_user bcrypt env.users_fail env.salt users_db (exists d.users.file) d.users)
        (record d { certs = certs })

  unfoldable pub start_agent_server : StartEnv → Disk → Start × Disk
  unfolding after_cert
  start_agent_server env d =
      after_cert env (load_or_create_agent_cert pair env.made env.how_key env.how_cert d.certs) d
