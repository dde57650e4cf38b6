-- ===== src/Cli/Words.antt =====
-- integrity.go: the arguments that ask for each command.
use ship_grip_fim.Base.{
  Bool, true, ◌≡◌, refl, not, List, [], ◌∷◌, Text, lit, str_eq, if◌then◌else◌, ltb, length, is_nil,
  arith,
}
use ship_grip_fim.Cli.{
  Cli, scan, list, agent, gui, hosts, pingall, exporter, webgui, quickcompare, fingerprint, version,
  report_data, compare, remote, sync, start, remoteall, deploy, user, Run, usage, runs, at, from,
  check_args, with_alias, dispatch, run_main,
}

-- The arguments that ask for a command.
abbrev pub words_of : Cli → List Text
words_of scan = lit "scan" ∷ []
words_of list = lit "list" ∷ []
words_of agent = lit "agent" ∷ []
words_of gui = lit "gui" ∷ []
words_of hosts = lit "hosts" ∷ []
words_of pingall = lit "pingall" ∷ []
words_of exporter = lit "exporter" ∷ []
words_of webgui = lit "webgui" ∷ []
words_of quickcompare = lit "quickcompare" ∷ []
words_of fingerprint = lit "fingerprint" ∷ []
words_of version = lit "version" ∷ []
words_of (report_data id) = lit "data" ∷ id ∷ []
words_of (compare id1 id2) = lit "compare" ∷ id1 ∷ id2 ∷ []
words_of (remote host port args) = lit "remote" ∷ host ∷ port ∷ args
words_of (sync alias) = lit "sync" ∷ alias ∷ []
words_of (start alias) = lit "start" ∷ alias ∷ []
words_of (remoteall args) = lit "remoteall" ∷ args
words_of (deploy args) = lit "deploy" ∷ args
words_of (user args) = lit "user" ∷ args

-- The commands that want arguments have one.
abbrev pub is_complete : Cli → Bool
is_complete (remote host port args) = not (is_nil args)
is_complete (remoteall args) = not (is_nil args)
is_complete (user args) = not (is_nil args)
is_complete _ = true

from_cons :
    (a b : Text) (rest : List Text) (f : List Text → Run)
    → (from 1 (a ∷ rest) f ≡ f rest)
      × ((if ltb (length (a ∷ b ∷ rest)) 2 then usage else from 1 (a ∷ b ∷ rest) f) ≡ f (b ∷ rest))
unfolding from
from_cons a b rest f = (ground arith, ground arith)

from_three :
    (a b c d : Text) (rest : List Text) (f : List Text → Run)
    → (if ltb (length (a ∷ b ∷ c ∷ d ∷ rest)) 4 then usage else from 3 (a ∷ b ∷ c ∷ d ∷ rest) f)
      ≡ f (d ∷ rest)
unfolding from
from_three a b c d rest f = ground arith

pub words_run : (c : Cli) → is_complete c ≡ true → run_main (words_of c) ≡ runs c
unfolding run_main check_args dispatch at from with_alias lit str_eq
words_run scan h = refl
words_run list h = refl
words_run agent h = refl
words_run gui h = refl
words_run hosts h = refl
words_run pingall h = refl
words_run exporter h = refl
words_run webgui h = refl
words_run quickcompare h = refl
words_run fingerprint h = refl
words_run version h = refl
words_run (report_data id) h = refl
words_run (compare id1 id2) h = refl
words_run (remote host port []) h = cc
words_run (remote host port (a ∷ rest)) h =
    from_three (lit "remote") host port a rest (λ args. runs (remote host port args))
words_run (sync alias) h = refl
words_run (start alias) h = refl
words_run (remoteall []) h = cc
words_run (remoteall (a ∷ rest)) h =
    (from_cons (lit "remoteall") a rest (λ args. runs (remoteall args))).1
words_run (deploy args) h = (from_cons (lit "deploy") [] args (λ more. runs (deploy more))).0
words_run (user []) h = cc
words_run (user (a ∷ rest)) h = (from_cons (lit "user") a rest (λ args. runs (user args))).1
