-- ===== src/Certs/Failed.antt =====
-- tlsutil.go: what a start that fails leaves for the next ones.
use ship_grip_fim.Base.{
  Bool, true, false, ◌≡◌, ◌≢◌, refl, Option, none, some, Text, ◌⊎◌, inl, inr, Read, missing, failed,
  contents, Result, ok, err, subst,
}
use ship_grip_fim.Sync.{Write, written, no_open, broke}
use ship_grip_fim.Certs.{
  CertFiles, CertError, only_one, load_failed, cert_not_written, not_a_pair, exists, write, load,
  as_pair, write_pair, load_or_create_agent_cert,
}

module _ {Cert : Type 0} (pair : Text → Text → Option Cert) where
  -- Every start from these files fails and leaves them as they are, whatever a new pair would be and
  -- however the writes would go.
  abbrev pub IsStuck : CertFiles → Type 0
  IsStuck files =
      (made : Option (Text × Text)) (how_key how_cert : Write)
      → (e : CertError) × (load_or_create_agent_cert pair made how_key how_cert files
          ≡ (err e, files))

  -- A certificate that was written in part is no pair with any key.
  abbrev pub IsCutOff : Write → Type 0
  IsCutOff written = Unit
  IsCutOff no_open = Unit
  IsCutOff (broke part) = (key : Text) → pair part key ≡ none

  only_key-IsStuck : (key : Text) → IsStuck (record { cert = missing; key = contents key })
  unfolding load_or_create_agent_cert exists
  only_key-IsStuck key made how_key how_cert = (only_one, refl)

  no_pair-IsStuck :
      (cert key : Text)
      → pair cert key ≡ none
      → IsStuck (record { cert = contents cert; key = contents key })
  unfolding load_or_create_agent_cert exists load as_pair
  no_pair-IsStuck cert key h made how_key how_cert = (load_failed, rw h refl)

  -- What a start that failed leaves: the files as they were, or files from which no start succeeds,
  -- and these when the certificate was not written.
  abbrev Leaves : CertFiles → Result CertError (Cert × Bool) × CertFiles → Type 0
  Leaves old (ok c, files) = Unit
  Leaves old (err e, files) = ((files ≡ old) × (e ≢ cert_not_written)) ⊎ IsStuck files

  pair-Leaves :
      (old : CertFiles) (cert key : Text) (o : Option Cert)
      → pair cert key ≡ o
      → Leaves old
          (as_pair pair not_a_pair true o, record { cert = contents cert; key = contents key })
  unfolding as_pair
  pair-Leaves old cert key (some c) h = tt
  pair-Leaves old cert key none h = inr (no_pair-IsStuck cert key h)

  write-Leaves :
      (how_key how_cert : Write) (cert key : Text)
      → IsCutOff how_cert
      → let none_yet : CertFiles = record { cert = missing; key = missing } in
        Leaves none_yet (write_pair pair how_key how_cert cert key none_yet)
  unfolding write_pair write
  write-Leaves written written cert key h =
      pair-Leaves (record { cert = missing; key = missing }) cert key (pair cert key) refl
  write-Leaves written no_open cert key h = inr (only_key-IsStuck key)
  write-Leaves written (broke part) cert key h = inr (no_pair-IsStuck part key (h key))
  write-Leaves no_open how_cert cert key h = inl (refl, λ e. cc)
  write-Leaves (broke part) how_cert cert key h = inr (only_key-IsStuck part)

  loaded-Leaves :
      (files : CertFiles) (o : Option Cert) → Leaves files (as_pair pair load_failed false o, files)
  unfolding as_pair
  loaded-Leaves files none = inl (refl, λ e. cc)
  loaded-Leaves files (some c) = tt

  start-Leaves :
      (made : Option (Text × Text)) (how_key how_cert : Write) (cert key : Read)
      → IsCutOff how_cert
      → let files : CertFiles = record { cert = cert; key = key } in
        Leaves files (load_or_create_agent_cert pair made how_key how_cert files)
  unfolding load_or_create_agent_cert exists
  start-Leaves none how_key how_cert missing missing h = inl (refl, λ e. cc)
  start-Leaves (some (c, k)) how_key how_cert missing missing h =
      write-Leaves how_key how_cert c k h
  start-Leaves made how_key how_cert missing failed h = inl (refl, λ e. cc)
  start-Leaves made how_key how_cert missing (contents k) h = inl (refl, λ e. cc)
  start-Leaves made how_key how_cert failed missing h = inl (refl, λ e. cc)
  start-Leaves made how_key how_cert (contents c) missing h = inl (refl, λ e. cc)
  start-Leaves made how_key how_cert failed failed h =
      loaded-Leaves (record { cert = failed; key = failed }) (load pair failed failed)
  start-Leaves made how_key how_cert failed (contents k) h =
      loaded-Leaves (record { cert = failed; key = contents k }) (load pair failed (contents k))
  start-Leaves made how_key how_cert (contents c) failed h =
      loaded-Leaves (record { cert = contents c; key = failed }) (load pair (contents c) failed)
  start-Leaves made how_key how_cert (contents c) (contents k) h =
      loaded-Leaves (record { cert = contents c; key = contents k })
        (load pair (contents c) (contents k))

  -- If a certificate that was written in part is no pair with any key, then a start that fails leaves
  -- the files as they were, or leaves files from which every later start fails and changes nothing;
  -- and always the latter when the certificate could not be written after its key, whether its file
  -- was not made or written in part.
  pub failed_start_sticks :
      (made : Option (Text × Text)) (how_key how_cert : Write) (files files' : CertFiles)
      (e : CertError)
      → IsCutOff how_cert
      → load_or_create_agent_cert pair made how_key how_cert files ≡ (err e, files')
      → ((files' ≡ files) × (e ≢ cert_not_written)) ⊎ IsStuck files'
  failed_start_sticks made how_key how_cert files files' e h r =
      subst (Leaves files) r (start-Leaves made how_key how_cert files.cert files.key h)
