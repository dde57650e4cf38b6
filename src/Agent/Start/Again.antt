-- ===== src/Agent/Start/Again.antt =====
-- agent_server.go: an agent that is started again.
use ship_grip_fim.Base.{
  ℕ, Bool, true, false, ◌≡◌, refl, Option, none, some, Text, if◌then◌else◌, Read, Result, ok, err,
  subst, if_both, sym,
}
use ship_grip_fim.Auth.Users.{Bcrypt, UserDb, AuthError}
use ship_grip_fim.Auth.File.{
  SaveStep, UsersDir, save, render, mkdir, create_temp, chmod, flush, close, rename,
}
use ship_grip_fim.Auth.Command.{
  Reply, ensure_default_user, ensured, save_error, using_default_password,
}
use ship_grip_fim.Metrics.{init_agent_state}
use ship_grip_fim.QuickCompare.{ParseTime}
use ship_grip_fim.Scheduler.Jobs.{Cron, init_scheduler}
use ship_grip_fim.Certs.{CertFiles, CertError, exists, load_or_create_agent_cert}
use ship_grip_fim.Certs.Kept.{IsKept, result-IsKept}
use ship_grip_fim.Agent.Start.{
  Disk, StartEnv, Started, Start, listening, not_listening, start_agent_server, after_users,
  after_cert,
}

-- A save that succeeds leaves a file.
abbrev IsSaved : Option SaveStep × UsersDir → Type 0
IsSaved (none, dir) = exists dir.file ≡ true
IsSaved (some step, dir) = Unit

save-IsSaved :
    (fails : SaveStep → Bool) (db : UserDb) (dir : UsersDir) → IsSaved (save fails db dir)
unfolding save exists
save-IsSaved fails db dir =
    if_both IsSaved (fails mkdir) (some mkdir, dir) _ tt
      (if_both IsSaved (fails create_temp) (some create_temp, dir) _ tt
        (if_both IsSaved (fails chmod) (some chmod, record dir { temp = none }) _ tt
          (if_both IsSaved (fails flush) (some flush, record dir { temp = none }) _ tt
            (if_both IsSaved (fails close) (some close, record dir { temp = none }) _ tt
              (if_both IsSaved (fails rename) (some rename, record dir { temp = some (render db) })
                _ tt refl)))))

module _ (bcrypt : Bcrypt) (fails : SaveStep → Bool) (salt : ℕ) (path : Text) where
  abbrev IsThere : Result Reply Bool × UsersDir → Type 0
  IsThere (ok created, dir) = exists dir.file ≡ true
  IsThere (err reply, dir) = Unit

  by_save :
      (r : Option SaveStep × UsersDir)
      → IsSaved r
      → IsThere (elim r.0 [ none ↦ (ok true, r.1) | some step ↦ (err (save_error step), r.1) ])
  by_save (none, dir) h = h
  by_save (some step, dir) h = tt

  ensured-IsThere :
      (dir : UsersDir) (r : Result AuthError UserDb) → IsThere (ensured bcrypt fails dir r)
  unfolding ensured
  ensured-IsThere dir (err e) = tt
  ensured-IsThere dir (ok db) = by_save (save fails db dir) (save-IsSaved fails db dir)

  ensure-IsThere :
      (dir : UsersDir) → IsThere (ensure_default_user bcrypt fails salt path (exists dir.file) dir)
  unfolding ensure_default_user
  ensure-IsThere dir = by_stat (exists dir.file) refl
    where
      by_stat :
          (b : Bool)
          → exists dir.file ≡ b
          → IsThere (ensure_default_user bcrypt fails salt path b dir)
      by_stat true e = e
      by_stat false e = ensured-IsThere dir _

module _ (bcrypt : Bcrypt) (cron : Cron) (parse : ParseTime) {Cert : Type 0}
    (pair : Text → Text → Option Cert) (users_db : Text) where
  -- The second start has what the first one has, but for what the reports tell it, and makes nothing.
  abbrev pub IsSame :
      Started bcrypt cron parse pair users_db → Started bcrypt cron parse pair users_db → Type 0
  IsSame a b =
      (b.cert ≡ a.cert)
      × (b.cert_created ≡ false)
      × (b.users_created ≡ false)
      × (b.default_password ≡ a.default_password)
      × (b.sched ≡ a.sched)

  abbrev IsRepeated : Start bcrypt cron parse pair users_db × Disk → Type 0
  IsRepeated (listening a, d) =
      (env : StartEnv)
      → env.listens ≡ true
      → (b : Started bcrypt cron parse pair users_db) × (start_agent_server bcrypt cron parse pair
            users_db env d
          ≡ (listening b, d))
        × IsSame a b
  IsRepeated (_, d) = Unit

  repeats :
      (certs : CertFiles) (users : UsersDir) (schedule : Read)
      (a : Started bcrypt cron parse pair users_db) (env : StartEnv)
      → load_or_create_agent_cert pair env.made env.how_key env.how_cert certs
        ≡ (ok (a.cert, false), certs)
      → exists users.file ≡ true
      → a.default_password ≡ using_default_password bcrypt users_db users.file
      → a.sched ≡ init_scheduler cron schedule
      → env.listens ≡ true
      → (b : Started bcrypt cron parse pair users_db) × (start_agent_server bcrypt cron parse pair
            users_db env
            (record { certs = certs; users = users; schedule = schedule })
          ≡ (listening b, record { certs = certs; users = users; schedule = schedule }))
        × IsSame a b
  unfolding start_agent_server ensure_default_user
  repeats certs users schedule a env c u p q l = (
    record {
      cert = a.cert;
      cert_created = false;
      users_created = false;
      default_password = using_default_password bcrypt users_db users.file;
      known = init_agent_state parse env.names env.open_file;
      sched = init_scheduler cron schedule;
    },
    rw (c, u, l) refl,
    (refl, refl, refl, sym p, sym q),
  )

  users-IsRepeated :
      (env : StartEnv) (c : Cert) (created : Bool) (certs : CertFiles) (schedule : Read)
      (r : Result Reply Bool × UsersDir) (old : UsersDir)
      → IsKept pair (ok (c, created), certs)
      → IsThere bcrypt env.users_fail env.salt users_db r
      → IsRepeated (
          after_users bcrypt cron parse pair users_db env c created r
            (record { certs = certs; users = old; schedule = schedule }))
  unfolding after_users
  users-IsRepeated env c created certs schedule (err reply, users) old k h = tt
  users-IsRepeated env c created certs schedule (ok new, users) old k h = listens env.listens
    where
      started : Started bcrypt cron parse pair users_db
      started = record {
        cert = c;
        cert_created = created;
        users_created = new;
        default_password = using_default_password bcrypt users_db users.file;
        known = init_agent_state parse env.names env.open_file;
        sched = init_scheduler cron schedule;
      }

      listens :
          (b : Bool)
          → IsRepeated (
            if b then listening started else not_listening,
            record { certs = certs; users = users; schedule = schedule },
          )
      listens false = tt
      listens true = λ env' l.
          repeats certs users schedule started env' (k env'.made env'.how_key env'.how_cert) h refl
            refl l

  cert-IsRepeated :
      (env : StartEnv) (d : Disk) (r : Result CertError (Cert × Bool) × CertFiles)
      → IsKept pair r
      → IsRepeated (after_cert bcrypt cron parse pair users_db env r d)
  unfolding after_cert
  cert-IsRepeated env d (err e, certs) k = tt
  cert-IsRepeated env d (ok (c, created), certs) k =
      users-IsRepeated env c created certs d.schedule
        (ensure_default_user bcrypt env.users_fail env.salt users_db (exists d.users.file) d.users)
        d.users k (ensure-IsThere bcrypt env.users_fail env.salt users_db d.users)

  -- An agent that came to listen once does so again from the files that it left, whatever a new pair
  -- and the writes would be, if its address can be listened on: with the same certificate, the same
  -- jobs and the same warning about the default password; it makes no certificate and no user, and
  -- leaves the files as they are.
  pub starts_again :
      (env env' : StartEnv) (d d' : Disk) (a : Started bcrypt cron parse pair users_db)
      → start_agent_server bcrypt cron parse pair users_db env d ≡ (listening a, d')
      → env'.listens ≡ true
      → (b : Started bcrypt cron parse pair users_db) × (start_agent_server bcrypt cron parse pair
            users_db env' d'
          ≡ (listening b, d'))
        × IsSame a b
  starts_again env env' d d' a h =
      subst IsRepeated h
        (unfold start_agent_server in
          cert-IsRepeated env d
            (load_or_create_agent_cert pair env.made env.how_key env.how_cert d.certs)
            (result-IsKept pair env.made env.how_key env.how_cert d.certs.cert d.certs.key))
        env'
