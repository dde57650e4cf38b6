-- ===== src/Sync/Copies.antt =====
-- sync.go: what a synchronisation leaves of the local files, and what it counts.
use ship_grip_fim.Base.{
  ℕ, suc, ◌+◌, Bool, true, false, ◌≡◌, ◌≢◌, refl, sym, ap, ◌∙◌, ◌⊎◌, inl, inr, not, none, some,
  List, [], ◌∷◌, Text, arith, In, here, there, Bool-cases, Option-cases, length, lookup, has_key,
  lookup-insert, lookup-insert_cases, str_eq_iff, if◌then◌else◌, if_both, trim_space, split, is_nil,
  All,
}
use ship_grip_fim.Report.Store.{valid_report_id, Files}
use ship_grip_fim.Sync.{
  is_error_text, report_ids, local_path, Write, written, no_open, broke, Counts, store_report,
  sync_report, sync_ids, SyncResult, finished, list_error, no_reports, cannot_create_dir,
  sync_host_reports, no_counts,
}

report_ids-valid : (ls : List Text) → All (λ id. valid_report_id id ≡ true) (report_ids ls)
unfolding report_ids
report_ids-valid [] = tt
report_ids-valid (l ∷ ls) = ground (arith, report_ids-valid ls)

abbrev pub total : Counts → ℕ
total n = n.synced + n.skipped + n.errors

-- Where a file that was not there before can come from.
abbrev pub IsCopy : (Text → Text) → (Text → Write) → Text → List Text → Text → Text → Type 0
IsCopy fetch how dir ids path content =
    (id : Text) × In id ids
    × (path ≡ local_path dir id)
    × (is_error_text (fetch id) ≡ false)
    × ((content ≡ fetch id) ⊎ (how id ≡ broke content))

module _ (fetch : Text → Text) (how : Text → Write) (dir : Text) where
  store_total :
      (w : Write) (path content : Text) (n : Counts) (files : Files)
      → total (store_report w path content (n, files)).0 ≡ suc (total n)
  unfolding store_report
  store_total written path content n files = omega arith
  store_total no_open path content n files = omega arith
  store_total (broke part) path content n files = omega arith

  total-sync_report :
      (id : Text) (s : Counts × Files) → total (sync_report fetch how dir id s).0 ≡ suc (total s.0)
  unfolding sync_report
  total-sync_report id (n, files) =
      ground (arith, store_total (how id) (local_path dir id) (fetch id) n files)

  store_keeps :
      (w : Write) (path content p c : Text) (n : Counts) (files : Files)
      → lookup path files ≡ none
      → lookup p files ≡ some c
      → lookup p (store_report w path content (n, files)).1 ≡ some c
  unfolding store_report
  store_keeps written path content p c n files a h =
      ground (arith, lookup-insert path p content files, str_eq_iff path p)
  store_keeps no_open path content p c n files a h = h
  store_keeps (broke part) path content p c n files a h =
      ground (arith, lookup-insert path p part files, str_eq_iff path p)

  sync_report_keeps :
      (id p c : Text) (s : Counts × Files)
      → lookup p s.1 ≡ some c
      → lookup p (sync_report fetch how dir id s).1 ≡ some c
  unfolding sync_report has_key
  sync_report_keeps id p c (n, files) h = elim (Option-cases (lookup (local_path dir id) files)) [
    | inl e ↦
        ground (arith, e, h, store_keeps (how id) (local_path dir id) (fetch id) p c n files e h)
    | inr (d, e) ↦ ground (arith, e, h)
  ]

  sync_ids_keeps :
      (ids : List Text) (p c : Text) (s : Counts × Files)
      → lookup p s.1 ≡ some c
      → lookup p (sync_ids fetch how dir ids s).1 ≡ some c
  unfolding sync_ids
  sync_ids_keeps [] p c s h = h
  sync_ids_keeps (id ∷ ids) p c s h =
      sync_ids_keeps ids p c (sync_report fetch how dir id s) (sync_report_keeps id p c s h)

  total-sync_ids :
      (ids : List Text) (s : Counts × Files)
      → total (sync_ids fetch how dir ids s).0 ≡ length ids + total s.0
  unfolding sync_ids
  total-sync_ids [] s = omega arith
  total-sync_ids (id ∷ ids) s =
      omega (arith, total-sync_ids ids (sync_report fetch how dir id s), total-sync_report id s)

  store_new :
      (w : Write) (id p c : Text) (n : Counts) (files : Files)
      → how id ≡ w
      → is_error_text (fetch id) ≡ false
      → lookup p (store_report w (local_path dir id) (fetch id) (n, files)).1 ≡ some c
      → (lookup p files ≡ some c) ⊎ IsCopy fetch how dir (id ∷ []) p c
  unfolding store_report
  store_new written id p c n files w e h =
      elim (lookup-insert_cases (local_path dir id) p (fetch id) c files h) [
        | inl (q, r) ↦ inr (id, here, q, e, inl r)
        | inr k ↦ inl k
      ]
  store_new no_open id p c n files w e h = inl h
  store_new (broke part) id p c n files w e h =
      elim (lookup-insert_cases (local_path dir id) p part c files h) [
        | inl (q, r) ↦ inr (id, here, q, e, inr (w ∙ ap broke (sym r)))
        | inr k ↦ inl k
      ]

  sync_report_new :
      (id p c : Text) (s : Counts × Files)
      → lookup p (sync_report fetch how dir id s).1 ≡ some c
      → (lookup p s.1 ≡ some c) ⊎ IsCopy fetch how dir (id ∷ []) p c
  unfolding sync_report
  sync_report_new id p c (n, files) h = elim (Bool-cases (has_key (local_path dir id) files)) [
    | inl e ↦ inl (ground (arith, e, h))
    | inr e ↦ elim (Bool-cases (is_error_text (fetch id))) [
      | inl f ↦ inl (ground (arith, e, f, h))
      | inr f ↦ store_new (how id) id p c n files refl f (ground (arith, e, f, h))
    ]
  ]

  later-IsCopy :
      (id p c : Text) (ids : List Text)
      → IsCopy fetch how dir ids p c
      → IsCopy fetch how dir (id ∷ ids) p c
  later-IsCopy id p c ids (k, m, q, e, r) = (k, there m, q, e, r)

  first-IsCopy :
      (id p c : Text) (ids : List Text)
      → IsCopy fetch how dir (id ∷ []) p c
      → IsCopy fetch how dir (id ∷ ids) p c
  first-IsCopy id p c ids (k, here, q, e, r) = (k, here, q, e, r)
  first-IsCopy id p c ids (k, there m, q, e, r) = elim m [ ]

  sync_ids_new :
      (ids : List Text) (p c : Text) (s : Counts × Files)
      → lookup p (sync_ids fetch how dir ids s).1 ≡ some c
      → (lookup p s.1 ≡ some c) ⊎ IsCopy fetch how dir ids p c
  unfolding sync_ids
  sync_ids_new [] p c s h = inl h
  sync_ids_new (id ∷ ids) p c s h = elim (sync_ids_new ids p c (sync_report fetch how dir id s) h) [
    | inr k ↦ inr (later-IsCopy id p c ids k)
    | inl k ↦ elim (sync_report_new id p c s k) [
      | inl q ↦ inl q
      | inr q ↦ inr (first-IsCopy id p c ids q)
    ]
  ]

  -- What is said of the result of a synchronisation.
  abbrev pub IsSound : List Text → Files → SyncResult × Files → Type 0
  IsSound ids files r =
      ((p c : Text) → lookup p files ≡ some c → lookup p r.1 ≡ some c)
      × ((p c : Text)
          → lookup p r.1 ≡ some c
          → (lookup p files ≡ some c) ⊎ IsCopy fetch how dir ids p c)
      × ((n : Counts) → r.0 ≡ finished n → total n ≡ length ids)

  unchanged :
      (ids : List Text) (files : Files) (r : SyncResult)
      → ((n : Counts) → r ≢ finished n)
      → IsSound ids files (r, files)
  unchanged ids files r h = (λ p c e. e, λ p c e. inl e, λ n e. absurd (h n e))

  finished-IsSound :
      (ids : List Text) (files : Files)
      → let s = sync_ids fetch how dir ids (no_counts, files) in
        IsSound ids files (finished s.0, s.1)
  finished-IsSound ids files = (
    λ p c e. sync_ids_keeps ids p c (no_counts, files) e,
    λ p c e. sync_ids_new ids p c (no_counts, files) e,
    λ n e. ground (arith, e, total-sync_ids ids (no_counts, files)),
  )

  -- A synchronisation, however the agent answers and the writes go, leaves every local file as it
  -- was; each new file stands in the host's directory under a valid report id, and holds what was
  -- fetched for that id, which is no error text, or the part that a failed write left of it; and
  -- when it finishes, the synced, skipped and failed reports are all the listed ones.
  pub sync_host_reports_lem :
      (list : Text) (mkdir_ok : Bool) (files : Files)
      → let ids = report_ids (split 10 list) in
        All (λ id. valid_report_id id ≡ true) ids
        × IsSound ids files (sync_host_reports list mkdir_ok fetch how dir files)
  unfolding sync_host_reports
  sync_host_reports_lem list mkdir_ok files =
      let ids = report_ids (split 10 list) in
      let s = sync_ids fetch how dir ids (no_counts, files) in
      let end : SyncResult × Files = (finished s.0, s.1) in
      let made : SyncResult × Files = if not mkdir_ok then (cannot_create_dir, files) else end in
      let found : SyncResult × Files = if is_nil ids then (no_reports, files) else made in
      let P : SyncResult × Files → Type 0 = λ r. IsSound ids files r in
      (
        report_ids-valid (split 10 list),
        if_both P (is_error_text list) (list_error (trim_space list), files) found
            (unchanged ids files (list_error (trim_space list)) (λ n e. cc))
            (if_both P (is_nil ids) (no_reports, files) made
              (unchanged ids files no_reports (λ n e. cc))
              (if_both P (not mkdir_ok) (cannot_create_dir, files) end
                (unchanged ids files cannot_create_dir (λ n e. cc)) (finished-IsSound ids files))),
      )
