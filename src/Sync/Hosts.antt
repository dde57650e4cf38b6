-- ===== src/Sync/Hosts.antt =====
-- sync.go: what a synchronisation of all hosts, or of those with an alias, leaves of the local files.
use ship_grip_fim.Base.{
  Bool, ◌≡◌, ◌⊎◌, inl, inr, List, [], ◌∷◌, Text, lit, In, here, there, lookup, some, none, split,
  if_both, Option, is_nil,
}
use ship_grip_fim.Report.Store.{Files}
use ship_grip_fim.Hosts.{RemoteHost, Credentials, host_config, selected}
use ship_grip_fim.Sync.{
  report_ids, Write, fetch_remote_report, sync_host, sync_each, sync_reports, SyncResult,
}
use ship_grip_fim.Sync.Copies.{IsCopy, sync_host_reports_lem}

module _ (send : Credentials → Text → Text → List Text → Text) (c : Credentials)
    (local_dir : RemoteHost → Text) (mkdir_ok : RemoteHost → Bool)
    (how : RemoteHost → Text → Write) where
  -- The file comes from a host: it stands in the directory of the host under an id that its agent
  -- listed, and holds what the agent sent, or the part of it that was written.
  abbrev pub IsCopyOf : RemoteHost → Text → Text → Type 0
  IsCopyOf h path content =
      IsCopy (fetch_remote_report send c h) (how h) (local_dir h)
        (report_ids (split 10 (send (host_config c h) h.address h.port (lit "list" ∷ [])))) path
        content

  -- Files that were there stay, and each other one comes from one of the hosts.
  abbrev pub IsCopied : List RemoteHost → Files → Files → Type 0
  IsCopied hosts files files' =
      ((p t : Text) → lookup p files ≡ some t → lookup p files' ≡ some t)
      × ((p t : Text)
          → lookup p files' ≡ some t
          → (lookup p files ≡ some t) ⊎ ((h : RemoteHost) × In h hosts × IsCopyOf h p t))

  sync_host-IsCopied :
      (h : RemoteHost) (hs : List RemoteHost) (files : Files)
      → IsCopied (h ∷ hs) files (sync_host send c local_dir mkdir_ok how h files).1
  unfolding sync_host
  sync_host-IsCopied h hs files =
      let list = send (host_config c h) h.address h.port (lit "list" ∷ []) in
      let sound =
        (sync_host_reports_lem (fetch_remote_report send c h) (how h) (local_dir h) list
          (mkdir_ok h) files).1 in
      (sound.0, λ p t e. elim (sound.1 p t e) [ inl k ↦ inl k | inr k ↦ inr (h, here, k) ])

  sync_each-IsCopied :
      (hs : List RemoteHost) (files : Files)
      → IsCopied hs files (sync_each send c local_dir mkdir_ok how hs files).1
  unfolding sync_each
  sync_each-IsCopied [] files = (λ p t e. e, λ p t e. inl e)
  sync_each-IsCopied (h ∷ hs) files =
      let one = sync_host-IsCopied h hs files in
      let rest = sync_each-IsCopied hs (sync_host send c local_dir mkdir_ok how h files).1 in
      (
        λ p t e. rest.0 p t (one.0 p t e),
        λ p t e. elim (rest.1 p t e) [
          | inl k ↦ one.1 p t k
          | inr (h', m, k) ↦ inr (h', there m, k)
        ],
      )

  -- A synchronisation of the hosts with an alias, or of all of them, keeps every file that was there,
  -- and every other file afterwards comes from one of these hosts: it stands in the directory of the
  -- host under an id that its agent listed, and holds what was fetched under that id, which is no
  -- error text, or the part of it that a failed write left.
  pub sync_reports-IsCopied :
      (alias : Text) (hosts : List RemoteHost) (files : Files)
      → IsCopied
          (selected alias hosts)
          files
          (sync_reports send c local_dir mkdir_ok how alias hosts files).1
  unfolding sync_reports
  sync_reports-IsCopied alias hosts files =
      if_both (λ (r : Option (List SyncResult) × Files). IsCopied (selected alias hosts) files r.1)
        (is_nil (selected alias hosts)) (none, files) _ (λ p t e. e, λ p t e. inl e)
        (sync_each-IsCopied (selected alias hosts) files)
