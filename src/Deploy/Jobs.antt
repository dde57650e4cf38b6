-- ===== src/Deploy/Jobs.antt =====
-- deploy.go: all hosts in turn, and the background job of the web server.
use ship_grip_fim.Base.{
  ℕ, suc, ◌+◌, Bool, true, false, ◌≡◌, refl, ◌||◌, ◌&&◌, ltb, not, List, [], ◌∷◌, ◌++◌, Text, arith,
  str_eq, if◌then◌else◌, is_nil, length, length-append,
}
use ship_grip_fim.Hosts.{RemoteHost, selected}

pub record Totals : Type 0 where
  pub deployed : ℕ
  pub failed : ℕ
  pub skipped : ℕ
  pub matched : Bool

-- One turn of the loop of `deployHosts`: `deploy` says whether the deploy to a host succeeds.
unfoldable pub deploy_one : (RemoteHost → Bool) → Text → RemoteHost → Totals → Totals
deploy_one deploy alias h t =
    let m = record t { matched = true } in
    if not (is_nil alias) && not (str_eq h.alias alias)
    then t
    else if is_nil h.ssh_user || is_nil h.binary_path
    then record m { skipped = suc t.skipped }
    else if deploy h
    then record m { deployed = suc t.deployed }
    else record m { failed = suc t.failed }

unfoldable pub deploy_each : (RemoteHost → Bool) → Text → List RemoteHost → Totals → Totals
unfolding deploy_one
deploy_each deploy alias [] t = t
deploy_each deploy alias (h ∷ hs) t = deploy_each deploy alias hs (deploy_one deploy alias h t)

pub data DeployResult : Type 0 where
  no_binary no_host : DeployResult
  hosts_failed : Totals → DeployResult
  all_deployed : Totals → DeployResult

abbrev pub no_totals : Totals
no_totals = record { deployed = 0; failed = 0; skipped = 0; matched = false }

-- `binary_found`: os.Stat finds a file.
unfoldable pub deploy_hosts : Bool → (RemoteHost → Bool) → Text → List RemoteHost → DeployResult
unfolding deploy_each
deploy_hosts binary_found deploy alias hosts =
    let t = deploy_each deploy alias hosts no_totals in
    if not binary_found
    then no_binary
    else if not t.matched
    then no_host
    else if ltb 0 t.failed
    then hosts_failed t
    else all_deployed t

pub record DeployJob : Type 0 where
  pub running : Bool
  pub output : Text

unfoldable pub start_deploy : DeployJob → Bool × DeployJob
start_deploy j = if j.running then (false, j) else (true, record { running = true; output = [] })

unfoldable pub write_deploy : Text → DeployJob → DeployJob
write_deploy s j = record j { output = j.output ++ s }

-- The deferred function.
unfoldable pub end_deploy : DeployJob → DeployJob
end_deploy j = record j { running = false }

deploy_one-total :
    (deploy : RemoteHost → Bool) (alias : Text) (h : RemoteHost) (t : Totals)
    → let r = deploy_one deploy alias h t in
      (r.deployed + r.failed + r.skipped
        ≡ length (selected alias (h ∷ [])) + (t.deployed + t.failed + t.skipped))
      × (r.matched ≡ t.matched || not (is_nil (selected alias (h ∷ []))))
unfolding deploy_one selected
deploy_one-total deploy alias h t = ground arith

selected-cons :
    (alias : Text) (h : RemoteHost) (hs : List RemoteHost)
    → selected alias (h ∷ hs) ≡ selected alias (h ∷ []) ++ selected alias hs
unfolding selected
selected-cons alias h hs = ground arith

is_nil-append : (xs ys : List RemoteHost) → is_nil (xs ++ ys) ≡ is_nil xs && is_nil ys
is_nil-append [] ys = refl
is_nil-append (x ∷ xs) ys = refl

-- Of the hosts that a deploy is for, each is counted once, as deployed, failed or skipped, whatever
-- the deploys do; and the deploy finds a host exactly if there is one with the alias.
pub every_host_counted :
    (deploy : RemoteHost → Bool) (alias : Text) (hs : List RemoteHost) (t : Totals)
    → let r = deploy_each deploy alias hs t in
      (r.deployed + r.failed + r.skipped
        ≡ length (selected alias hs) + (t.deployed + t.failed + t.skipped))
      × (r.matched ≡ t.matched || not (is_nil (selected alias hs)))
unfolding deploy_each
every_host_counted deploy alias [] t = unfold selected in (omega arith, ground arith)
every_host_counted deploy alias (h ∷ hs) t =
    let one = deploy_one-total deploy alias h t in
    let rest = every_host_counted deploy alias hs (deploy_one deploy alias h t) in
    rw (selected-cons alias h hs) (
      omega (arith, one.0, rest.0, length-append (selected alias (h ∷ [])) (selected alias hs)),
      ground (arith, one.1, rest.1, is_nil-append (selected alias (h ∷ [])) (selected alias hs)),
    )
