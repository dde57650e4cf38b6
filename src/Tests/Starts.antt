-- ===== src/Tests/Starts.antt =====
-- The arguments and the certificate of a start.
use ship_grip_fim.Base.{
  ◌⊎◌, if◌then◌else◌, str_eq, true, false, ◌≡◌, ◌≢◌, refl, Option, none, some, [], ◌∷◌, Text, lit,
  missing, contents, ok,
}
use ship_grip_fim.Sync.{Write, written, no_open, broke}
use ship_grip_fim.Auth.Command.{ensure_default_user, using_default_password}
use ship_grip_fim.Metrics.{init_agent_state}
use ship_grip_fim.QuickCompare.{ParseTime}
use ship_grip_fim.Scheduler.Jobs.{init_scheduler}
use ship_grip_fim.Agent.Start.{
  Disk, StartEnv, Started, listening, start_agent_server, after_cert, after_users,
}
use ship_grip_fim.Agent.Start.Again.{IsSame, starts_again}
use ship_grip_fim.Tests.Instances.{toy_bcrypt, toy_cron}
use ship_grip_fim.Cli.{compare, runs, out_of_range, run_main}
use ship_grip_fim.Cli.Words.{words_of}
use ship_grip_fim.Cli.Dispatch.{main_commands}
use ship_grip_fim.Certs.{
  CertFiles, load_or_create_agent_cert, cert_not_written, exists, write_pair, write, as_pair,
}
use ship_grip_fim.Certs.Kept.{certificate_kept}
use ship_grip_fim.Certs.Failed.{IsStuck, IsCutOff, failed_start_sticks}

main_commands_example :
    (run_main (lit "compare" ∷ lit "a" ∷ []) ≢ out_of_range)
    × (run_main (words_of (compare (lit "a") (lit "b"))) ≡ runs (compare (lit "a") (lit "b")))
main_commands_example =
    main_commands (lit "compare" ∷ lit "a" ∷ []) (compare (lit "a") (lit "b")) refl

abbrev toy_pair : Text → Text → Option Text
toy_pair cert key = some cert

abbrev no_files : CertFiles
no_files = record { cert = missing; key = missing }

abbrev first_start : Option (Text × Text)
first_start = some (lit "C", lit "K")

certificate_kept_example :
    load_or_create_agent_cert toy_pair none no_open no_open
      (load_or_create_agent_cert toy_pair first_start written written no_files).1
    ≡ (
      ok (lit "C", false),
      (load_or_create_agent_cert toy_pair first_start written written no_files).1,
    )
unfolding load_or_create_agent_cert exists write_pair write as_pair
certificate_kept_example =
    certificate_kept toy_pair first_start none written written no_open no_open no_files
      (load_or_create_agent_cert toy_pair first_start written written no_files).1 (lit "C") true
      refl

-- Only the whole certificate is a pair with a key.
abbrev whole_pair : Text → Text → Option Text
whole_pair cert key = if str_eq cert (lit "C") then some cert else none

abbrev cut_off : Write
cut_off = broke (lit "x")

cut_off-IsCutOff : IsCutOff whole_pair cut_off
unfolding lit str_eq
cut_off-IsCutOff key = refl

failed_start_sticks_example :
    let files : CertFiles = record { cert = contents (lit "x"); key = contents (lit "K") } in
    ((files ≡ no_files) × (cert_not_written ≢ cert_not_written)) ⊎ IsStuck whole_pair files
unfolding load_or_create_agent_cert exists write_pair write
failed_start_sticks_example =
    failed_start_sticks whole_pair first_start written cut_off no_files
      (record { cert = contents (lit "x"); key = contents (lit "K") }) cert_not_written
      cut_off-IsCutOff refl

abbrev no_times : ParseTime
no_times layout value = none

abbrev first_disk : Disk
first_disk = record {
  certs = no_files;
  users = record { file = contents []; temp = none };
  schedule = missing;
}

abbrev later_disk : Disk
later_disk = record first_disk {
  certs = record { cert = contents (lit "C"); key = contents (lit "K") };
}

abbrev start_env : StartEnv
start_env = record {
  made = first_start;
  how_key = written;
  how_cert = written;
  users_fail = λ k. false;
  salt = 0;
  names = none;
  open_file = λ n. none;
  listens = true;
}

abbrev first_agent : Started toy_bcrypt toy_cron no_times toy_pair (lit "/u")
first_agent = record {
  cert = lit "C";
  cert_created = true;
  users_created = false;
  default_password = using_default_password toy_bcrypt (lit "/u") (contents []);
  known = init_agent_state no_times none (λ n. none);
  sched = init_scheduler toy_cron missing;
}

starts_again_example :
    (b : Started toy_bcrypt toy_cron no_times toy_pair (lit "/u")) × (start_agent_server toy_bcrypt
        toy_cron no_times toy_pair
        (lit "/u")
        start_env
        later_disk
      ≡ (listening b, later_disk))
    × IsSame toy_bcrypt toy_cron no_times toy_pair (lit "/u") first_agent b
unfolding start_agent_server after_cert after_users load_or_create_agent_cert exists write_pair
    write as_pair ensure_default_user
starts_again_example =
    starts_again toy_bcrypt toy_cron no_times toy_pair (lit "/u") start_env start_env first_disk
      later_disk first_agent refl refl
