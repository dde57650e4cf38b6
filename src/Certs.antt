-- ===== src/Certs.antt =====
-- tlsutil.go: the certificate and the private key of the agent and of the web server, which are made at
-- the first start. The texts of a new pair and how they are read as a pair are parameters.
pub mod Kept
pub mod Failed
use ship_grip_fim.Base.{
  Bool, true, false, ◌&&◌, ◌||◌, Option, none, some, Text, if◌then◌else◌, Read, missing, failed,
  contents, Result, ok, err,
}
use ship_grip_fim.Sync.{Write, written, no_open, broke}

pub record CertFiles : Type 0 where
  pub cert : Read
  pub key : Read

pub data CertError : Type 0 where
  only_one load_failed not_generated key_not_written cert_not_written not_a_pair : CertError

-- os.Stat finds a file.
unfoldable pub exists : Read → Bool
exists missing = false
exists failed = true
exists (contents s) = true

-- os.WriteFile, with whether it succeeds.
unfoldable pub write : Write → Text → Read → Bool × Read
write written s file = (true, contents s)
write no_open s file = (false, file)
write (broke part) s file = (false, contents part)

-- `pair` is tls.X509KeyPair of the texts of the two files.
module _ {Cert : Type 0} (pair : Text → Text → Option Cert) where
  -- tls.LoadX509KeyPair
  unfoldable pub load : Read → Read → Option Cert
  load (contents c) (contents k) = pair c k
  load cert key = none

  unfoldable pub as_pair : CertError → Bool → Option Cert → Result CertError (Cert × Bool)
  as_pair e created none = err e
  as_pair e created (some c) = ok (c, created)

  unfoldable pub write_pair :
      Write → Write → Text → Text → CertFiles → Result CertError (Cert × Bool) × CertFiles
  unfolding write as_pair
  write_pair how_key how_cert cert key files =
      let (key_done, key_file) = write how_key key files.key in
      let (cert_done, cert_file) = write how_cert cert files.cert in
      if key_done
      then (if cert_done
          then (
            as_pair not_a_pair true (pair cert key),
            record { cert = cert_file; key = key_file },
          )
          else (err cert_not_written, record { cert = cert_file; key = key_file }))
      else (err key_not_written, record files { key = key_file })

  -- `made` are the texts of a new pair, if it can be made.
  unfoldable pub load_or_create_agent_cert :
      Option (Text × Text) → Write → Write → CertFiles → Result CertError (Cert × Bool) × CertFiles
  unfolding exists load write_pair
  load_or_create_agent_cert made how_key how_cert files =
      if exists files.cert && exists files.key
      then (as_pair load_failed false (load files.cert files.key), files)
      else if exists files.cert || exists files.key
      then (err only_one, files)
      else elim made [
        | none ↦ (err not_generated, files)
        | some (cert, key) ↦ write_pair how_key how_cert cert key files
      ]

  shown : (Cert → Text) → Result CertError (Cert × Bool) → Result CertError (Text × Bool)
  shown print (err e) = err e
  shown print (ok (c, created)) = ok (print c, created)

  -- The fingerprint that the command prints, and whether the certificate is new.
  unfoldable pub cmd_fingerprint :
      (Cert → Text)
      → Option (Text × Text)
      → Write
      → Write
      → CertFiles
      → Result CertError (Text × Bool) × CertFiles
  unfolding shown
  cmd_fingerprint print made how_key how_cert files =
      let (r, files') = load_or_create_agent_cert made how_key how_cert files in
      (shown print r, files')
