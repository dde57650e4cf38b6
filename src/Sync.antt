-- ===== src/Sync.antt =====
-- sync.go: the reports of one agent are copied to the local directory of its host.
pub mod Copies
pub mod Hosts
use ship_grip_fim.Base.{
  ℕ, zero, suc, ◌+◌, Bool, true, false, not, ◌||◌, Option, none, some, List, [], ◌∷◌, ◌++◌, Text,
  lit, str_eq, if◌then◌else◌, is_nil, has_prefix, trim_space, split, Map, lookup, insert, has_key,
}
use ship_grip_fim.Report.Store.{valid_report_id, Files}
use ship_grip_fim.Hosts.{RemoteHost, Credentials, host_config, selected}

unfoldable pub is_error_text : Text → Bool
is_error_text s = has_prefix (lit "ERROR") (trim_space s)

-- The ids among the lines of the answer to "list".
unfoldable pub report_ids : List Text → List Text
report_ids [] = []
report_ids (l ∷ ls) =
    let rest = report_ids ls in
    let id = trim_space l in
    if not (valid_report_id id) || has_prefix (lit "-") id then rest else id ∷ rest

-- `filepath.Join` of the local directory and an id that is valid, which needs no cleaning.
unfoldable pub local_path : Text → Text → Text
local_path dir id = dir ++ (b'/' ∷ id)

-- How os.WriteFile goes: a failed write may leave the first part of the contents.
pub data Write : Type 0 where
  written no_open : Write
  broke : Text → Write

pub record Counts : Type 0 where
  pub synced : ℕ
  pub skipped : ℕ
  pub errors : ℕ

unfoldable pub store_report : Write → Text → Text → Counts × Files → Counts × Files
store_report written path content (n, files) =
    (record n { synced = suc n.synced }, insert path content files)
store_report no_open path content (n, files) = (record n { errors = suc n.errors }, files)
store_report (broke part) path content (n, files) =
    (record n { errors = suc n.errors }, insert path part files)

-- `fetch` is `fetchRemoteReport`, and `how` the writes, each by the id.
module _ (fetch : Text → Text) (how : Text → Write) (dir : Text) where
  unfoldable pub sync_report : Text → Counts × Files → Counts × Files
  unfolding store_report local_path is_error_text
  sync_report id (n, files) =
      if has_key (local_path dir id) files
      then (record n { skipped = suc n.skipped }, files)
      else if is_error_text (fetch id)
      then (record n { errors = suc n.errors }, files)
      else store_report (how id) (local_path dir id) (fetch id) (n, files)

  unfoldable pub sync_ids : List Text → Counts × Files → Counts × Files
  unfolding sync_report
  sync_ids [] s = s
  sync_ids (id ∷ ids) s = sync_ids ids (sync_report id s)

pub data SyncResult : Type 0 where
  list_error : Text → SyncResult
  no_reports cannot_create_dir : SyncResult
  finished : Counts → SyncResult

abbrev pub no_counts : Counts
no_counts = record { synced = 0; skipped = 0; errors = 0 }

-- `list` is the answer to "list", and `mkdir_ok` whether the local directory can be made.
unfoldable pub sync_host_reports :
    Text → Bool → (Text → Text) → (Text → Write) → Text → Files → SyncResult × Files
unfolding is_error_text report_ids sync_ids
sync_host_reports list mkdir_ok fetch how dir files =
    let ids = report_ids (split 10 list) in
    if is_error_text list
    then (list_error (trim_space list), files)
    else if is_nil ids
    then (no_reports, files)
    else if not mkdir_ok
    then (cannot_create_dir, files)
    else let (n, files') = sync_ids fetch how dir ids (no_counts, files) in (finished n, files')

unfoldable pub fetch_remote_report :
    (Credentials → Text → Text → List Text → Text) → Credentials → RemoteHost → Text → Text
fetch_remote_report send c h id = send (host_config c h) h.address h.port (lit "fetch" ∷ id ∷ [])

-- `send` is the connection to an agent; `local_dir` joins the report directory, "remote" and the alias.
module _ (send : Credentials → Text → Text → List Text → Text) (c : Credentials)
    (local_dir : RemoteHost → Text) (mkdir_ok : RemoteHost → Bool)
    (how : RemoteHost → Text → Write) where
  unfoldable pub sync_host : RemoteHost → Files → SyncResult × Files
  unfolding fetch_remote_report
  sync_host h files =
      sync_host_reports (send (host_config c h) h.address h.port (lit "list" ∷ [])) (mkdir_ok h)
        (fetch_remote_report send c h) (how h) (local_dir h) files

  unfoldable pub sync_each : List RemoteHost → Files → List SyncResult × Files
  unfolding sync_host
  sync_each [] files = ([], files)
  sync_each (h ∷ hs) files =
      let (r, files1) = sync_host h files in
      let (rs, files2) = sync_each hs files1 in (r ∷ rs, files2)

  -- `none`: there is no host with the alias.
  unfoldable pub sync_reports : Text → List RemoteHost → Files → Option (List SyncResult) × Files
  unfolding sync_each
  sync_reports alias hosts files =
      if is_nil (selected alias hosts)
      then (none, files)
      else let (rs, files') = sync_each (selected alias hosts) files in (some rs, files')
