-- ===== src/Deploy/Copies.antt =====
-- deploy.go: which files a deploy copies to a host.
use ship_grip_fim.Base.{
  Bool, true, false, ◌≡◌, refl, sym, subst, ◌⊎◌, inl, inr, not, ◌||◌, none, some, Option-cases,
  List, [], ◌∷◌, ◌++◌, Text, In, here, there, All, All-append, is_nil, if◌then◌else◌, Read, if_both,
}
use ship_grip_fim.Hosts.{RemoteHost}
use ship_grip_fim.Deploy.{
  Action, make_dir, test_exists, install, stop, copy, fingerprint, start, Ssh, Deployed, must,
  unless_failed, try_file, deploy_file, deploy_files, pin_step, restart_step, deploy_to_host,
  new_path, DeployError, not_configured, file_not_copied, not_installed, mkdir_failed,
  binary_not_copied, not_started, not_stopped,
}

-- A copy is the one of the binary, or puts a configuration file beside it under its own name.
abbrev pub IsAllowed : (Text → Text) → (Text → Text) → List Text → Text → Text → Action → Type 0
IsAllowed dir base files binary path (copy local remote) =
    ((local ≡ binary) × (remote ≡ new_path path))
    ⊎ (In local files × (remote ≡ dir path ++ (b'/' ∷ base local)))
IsAllowed dir base files binary path _ = Unit

module _ (ssh : Ssh) (P : Action → Type 0) where
  All-must :
      (a : Action) (e : DeployError) (d : Deployed) → P a → All P d.log → All P (must ssh a e d).log
  unfolding must
  All-must a e d p h = elim (Option-cases d.failure) [
    | inl n ↦ rw n (All-append P d.log (a ∷ []) h (p, tt))
    | inr (f, s) ↦ rw s h
  ]

module _ (ssh : Ssh) (dir base : Text → Text) (local : Text → Bool) (pin_fails : Bool)
    (files : List Text) (binary path : Text) where
  abbrev Allowed : Action → Type 0
  Allowed a = IsAllowed dir base files binary path a

  All-try_file :
      (f : Text) (d : Deployed)
      → In f files
      → All Allowed d.log
      → All Allowed (try_file ssh dir base local pin_fails (dir path) f d).log
  unfolding try_file
  All-try_file f d m h =
      let remote = dir path ++ (b'/' ∷ base f) in
      let tested : Deployed = record d { log = d.log ++ test_exists remote ∷ [] } in
      let copied = must ssh (copy f remote) (file_not_copied (base f)) tested in
      let k = All-append Allowed d.log (test_exists remote ∷ []) h (tt, tt) in
      if_both (λ r. All Allowed r.log) (is_nil f || not (local f)) d
        (if (ssh d.log (test_exists remote)).0 then tested else copied) h
        (if_both (λ r. All Allowed r.log) (ssh d.log (test_exists remote)).0 tested copied k
          (All-must ssh Allowed (copy f remote) (file_not_copied (base f)) tested (inr (m, refl))
            k))

  All-deploy_file :
      (f : Text) (d : Deployed)
      → In f files
      → All Allowed d.log
      → All Allowed (deploy_file ssh dir base local pin_fails (dir path) f d).log
  unfolding deploy_file unless_failed
  All-deploy_file f d m h =
      let tried = try_file ssh dir base local pin_fails (dir path) f d in
      elim (Option-cases d.failure) [
        | inr (e, s) ↦ subst (λ o. All Allowed (unless_failed o d tried).log) (sym s) h
        | inl n ↦
            subst (λ o. All Allowed (unless_failed o d tried).log) (sym n) (All-try_file f d m h)
      ]

  All-deploy_files :
      (fs : List Text) (d : Deployed)
      → ((f : Text) → In f fs → In f files)
      → All Allowed d.log
      → All Allowed (deploy_files ssh dir base local pin_fails (dir path) fs d).log
  unfolding deploy_files
  All-deploy_files [] d sub h = h
  All-deploy_files (f ∷ fs) d sub h =
      All-deploy_files fs (deploy_file ssh dir base local pin_fails (dir path) f d)
        (λ g m. sub g (there m)) (All-deploy_file f d (sub f here) h)

  All-pin_step :
      (h : RemoteHost) (d : Deployed)
      → All Allowed d.log
      → All Allowed (pin_step ssh dir base local pin_fails h d).log
  unfolding pin_step
  All-pin_step h d k = elim (Option-cases d.failure) [
    | inr (e, s) ↦ rw s k
    | inl n ↦
        rw n
          (All-append Allowed d.log (fingerprint (dir h.binary_path) h.binary_path ∷ []) k (tt, tt))
  ]

  All-restart_step :
      (h : RemoteHost) (restart : Bool) (d : Deployed)
      → All Allowed d.log
      → All Allowed (restart_step ssh dir base local pin_fails h restart d).log
  unfolding restart_step
  All-restart_step h false d k = k
  All-restart_step h true d k =
      let stopped = must ssh (stop h.binary_path) not_stopped d in
      All-must ssh Allowed (start (dir h.binary_path) h.binary_path h.port) not_started stopped tt
        (All-must ssh Allowed (stop h.binary_path) not_stopped d tt k)

-- However the remote commands end, the only files that a deploy copies to a host are the binary, to
-- the path for new binaries, and configuration files, each into the binary's directory under its own
-- name: no other file of the host, such as its users file, is written.
pub copies-IsAllowed :
    (ssh : Ssh) (dir base : Text → Text) (local : Text → Bool) (pin_fails : Bool)
    (files : List Text) (binary : Text) (restart : Bool) (h : RemoteHost) (known : Read)
    → All
        (IsAllowed dir base files binary h.binary_path)
        (deploy_to_host ssh dir base local pin_fails files binary restart h known).log
unfolding deploy_to_host
copies-IsAllowed ssh dir base local pin_fails files binary restart h known =
    let path = h.binary_path in
    let A = IsAllowed dir base files binary path in
    let first : Deployed = record { log = []; known = known; failure = none } in
    let made = must ssh (make_dir (dir path)) mkdir_failed first in
    let copied = must ssh (copy binary (new_path path)) binary_not_copied made in
    let installed = must ssh (install path) not_installed copied in
    let filed = deploy_files ssh dir base local pin_fails (dir path) files installed in
    let pinned = pin_step ssh dir base local pin_fails h filed in
    if_both (λ r. All A r.log) (is_nil h.ssh_user || is_nil path)
      (record first { failure = some not_configured })
      (restart_step ssh dir base local pin_fails h restart pinned) tt
      (All-restart_step ssh dir base local pin_fails files binary path h restart pinned (
        All-pin_step ssh dir base local pin_fails files binary path h filed (
          All-deploy_files ssh dir base local pin_fails files binary path files installed (λ f m. m)
            (All-must ssh A (install path) not_installed copied tt (
              All-must ssh A (copy binary (new_path path)) binary_not_copied made (inl (refl, refl))
                (All-must ssh A (make_dir (dir path)) mkdir_failed first tt tt))))))
