-- ===== src/Certs/Kept.antt =====
-- tlsutil.go: the certificate of a first start is that of every later one.
use ship_grip_fim.Base.{
  Bool, true, false, ◌≡◌, refl, Option, none, some, Text, Read, missing, failed, contents, Result,
  ok, err, subst,
}
use ship_grip_fim.Sync.{Write, written, no_open, broke}
use ship_grip_fim.Certs.{
  CertFiles, CertError, not_a_pair, load_failed, exists, write, load, as_pair, write_pair,
  load_or_create_agent_cert,
}

module _ {Cert : Type 0} (pair : Text → Text → Option Cert) where
  -- Whatever a pair of files gave once, it gives again.
  abbrev pub IsKept : Result CertError (Cert × Bool) × CertFiles → Type 0
  IsKept (err e, files) = Unit
  IsKept (ok (c, created), files) =
      (made : Option (Text × Text)) (how_key how_cert : Write)
      → load_or_create_agent_cert pair made how_key how_cert files ≡ (ok (c, false), files)

  again :
      (cert key : Text) (c : Cert) (made : Option (Text × Text)) (how_key how_cert : Write)
      → pair cert key ≡ some c
      → let files : CertFiles = record { cert = contents cert; key = contents key } in
        load_or_create_agent_cert pair made how_key how_cert files ≡ (ok (c, false), files)
  unfolding load_or_create_agent_cert exists load as_pair
  again cert key c made how_key how_cert e = rw e refl

  pair-IsKept :
      (cert key : Text) (e : CertError) (created : Bool) (o : Option Cert)
      → pair cert key ≡ o
      → IsKept (as_pair pair e created o, record { cert = contents cert; key = contents key })
  unfolding as_pair
  pair-IsKept cert key e created none h = tt
  pair-IsKept cert key e created (some c) h =
      λ made how_key how_cert. again cert key c made how_key how_cert h

  written-IsKept :
      (how_key how_cert : Write) (cert key : Text)
      → IsKept
          (write_pair pair how_key how_cert cert key (record { cert = missing; key = missing }))
  unfolding write_pair write
  written-IsKept written written cert key =
      pair-IsKept cert key not_a_pair true (pair cert key) refl
  written-IsKept written no_open cert key = tt
  written-IsKept written (broke part) cert key = tt
  written-IsKept no_open how_cert cert key = tt
  written-IsKept (broke part) how_cert cert key = tt

  pub result-IsKept :
      (made : Option (Text × Text)) (how_key how_cert : Write) (cert key : Read)
      → IsKept
          (load_or_create_agent_cert pair made how_key how_cert (record { cert = cert; key = key }))
  unfolding load_or_create_agent_cert exists load as_pair
  result-IsKept made how_key how_cert (contents c) (contents k) =
      pair-IsKept c k load_failed false (pair c k) refl
  result-IsKept none how_key how_cert missing missing = tt
  result-IsKept (some (c, k)) how_key how_cert missing missing = written-IsKept how_key how_cert c k
  result-IsKept made how_key how_cert missing failed = tt
  result-IsKept made how_key how_cert missing (contents k) = tt
  result-IsKept made how_key how_cert failed missing = tt
  result-IsKept made how_key how_cert failed failed = tt
  result-IsKept made how_key how_cert failed (contents k) = tt
  result-IsKept made how_key how_cert (contents c) missing = tt
  result-IsKept made how_key how_cert (contents c) failed = tt

  -- The certificate of a start that has one, made then or not, is that of every later start, which
  -- makes none and changes no file, whatever a new pair would be and however writes would go.
  pub certificate_kept :
      (made made' : Option (Text × Text)) (how_key how_cert how_key' how_cert' : Write)
      (files files' : CertFiles) (c : Cert) (created : Bool)
      → load_or_create_agent_cert pair made how_key how_cert files ≡ (ok (c, created), files')
      → load_or_create_agent_cert pair made' how_key' how_cert' files' ≡ (ok (c, false), files')
  certificate_kept made made' how_key how_cert how_key' how_cert' files files' c created h =
      subst IsKept h (result-IsKept made how_key how_cert files.cert files.key) made' how_key'
        how_cert'
