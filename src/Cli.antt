-- ===== src/Cli.antt =====
-- integrity.go: how `main` reads its positional arguments, and deploy.go: those of "deploy". An index
-- or a slice out of range panics; `usage` ends the program.
pub mod Words
pub mod Dispatch
use ship_grip_fim.Base.{
  ℕ, zero, suc, Bool, true, false, Option, none, some, List, [], ◌∷◌, Text, lit, str_eq,
  if◌then◌else◌, leb, ltb, length, drop, has_prefix, get_elem?,
}

pub data Cli : Type 0 where
  scan list agent gui hosts pingall exporter webgui quickcompare fingerprint version : Cli
  report_data : Text → Cli
  compare : Text → Text → Cli
  remote : Text → Text → List Text → Cli
  sync start : Text → Cli
  remoteall deploy user : List Text → Cli

pub data Run : Type 0 where
  usage out_of_range : Run
  runs : Cli → Run

-- `positional[i]`
unfoldable pub at : ℕ → List Text → (Text → Run) → Run
at i positional f = elim (get_elem? positional i) [ none ↦ out_of_range | some s ↦ f s ]

-- `positional[n:]`
unfoldable pub from : ℕ → List Text → (List Text → Run) → Run
from n positional f = if leb n (length positional) then f (drop n positional) else out_of_range

-- The first switch: the ids, unless there are too few arguments.
unfoldable pub check_args : Text → List Text → (Text → Text → Run) → Run
unfolding at
check_args action positional f =
    if str_eq action (lit "data")
    then (if leb 2 (length positional) then at 1 positional (λ id1. f id1 []) else usage)
    else if str_eq action (lit "compare")
    then (if leb 3 (length positional)
        then at 1 positional (λ id1. at 2 positional (λ id2. f id1 id2))
        else usage)
    else if str_eq action (lit "remote")
    then (if ltb (length positional) 4 then usage else f [] [])
    else if str_eq action (lit "remoteall")
    then (if ltb (length positional) 2 then usage else f [] [])
    else if str_eq action (lit "user")
    then (if ltb (length positional) 2 then usage else f [] [])
    else f [] []

-- An alias is the next argument, empty without one.
unfoldable pub with_alias : List Text → (Text → Cli) → Run
unfolding at
with_alias positional f =
    if leb 2 (length positional) then at 1 positional (λ a. runs (f a)) else runs (f [])

-- The second switch.
unfoldable pub dispatch : Text → List Text → Text → Text → Run
unfolding from with_alias at
dispatch action positional id1 id2 =
    if str_eq action (lit "scan")
    then runs scan
    else if str_eq action (lit "list")
    then runs list
    else if str_eq action (lit "data")
    then runs (report_data id1)
    else if str_eq action (lit "compare")
    then runs (compare id1 id2)
    else if str_eq action (lit "agent")
    then runs agent
    else if str_eq action (lit "gui")
    then runs gui
    else if str_eq action (lit "remote")
    then at 1 positional
        (λ host. at 2 positional (λ port. from 3 positional (λ args. runs (remote host port args))))
    else if str_eq action (lit "hosts")
    then runs hosts
    else if str_eq action (lit "pingall")
    then runs pingall
    else if str_eq action (lit "sync")
    then with_alias positional sync
    else if str_eq action (lit "remoteall")
    then from 1 positional (λ args. runs (remoteall args))
    else if str_eq action (lit "start")
    then with_alias positional start
    else if str_eq action (lit "deploy")
    then from 1 positional (λ args. runs (deploy args))
    else if str_eq action (lit "exporter")
    then runs exporter
    else if str_eq action (lit "webgui")
    then runs webgui
    else if str_eq action (lit "quickcompare")
    then runs quickcompare
    else if str_eq action (lit "user")
    then from 1 positional (λ args. runs (user args))
    else if str_eq action (lit "fingerprint")
    then runs fingerprint
    else if str_eq action (lit "version")
    then runs version
    else usage

unfoldable pub run_main : List Text → Run
unfolding check_args dispatch
run_main [] = usage
run_main (action ∷ args) = check_args action (action ∷ args) (dispatch action (action ∷ args))

pub record DeployArgs : Type 0 where
  pub alias : Text
  pub binary : Text
  pub restart : Bool

unfoldable pub deploy_arg : Text → DeployArgs → DeployArgs
deploy_arg a o =
    if str_eq a (lit "--no-restart")
    then record o { restart = false }
    else if has_prefix (lit "--binary=") a
    then record o { binary = drop (length (lit "--binary=")) a }
    else record o { alias = a }

-- The loop of `cmdDeploy`.
unfoldable pub deploy_args : List Text → DeployArgs → DeployArgs
unfolding deploy_arg
deploy_args [] o = o
deploy_args (a ∷ rest) o = deploy_args rest (deploy_arg a o)
