-- ===== src/Commands/Dane.antt =====
-- src/main.rs, `dane_publish` and `dane_check`.
use certforge.Base.{
  Text, same, is_empty, not, Bool, true, false, ◌&&◌, ◌||◌, ◌==◌, Option, List, [], ◌∷◌,
  if◌then◌else◌,
}
use certforge.Error.{other, Result, ok, err, panic}
use certforge.Config.{DaneConfig, CertificateConfig, Config, ok_or, dns_client}
use certforge.Crates.{Crates}
use certforge.Certs.{CertInfo}
use certforge.Certs.Load.{load_cert}
use certforge.Tlsa.{TlsaRecord, to_rdata_string}
use certforge.Dane.Records.{compute_tlsa_records, first_record}
use certforge.Dane.{publish_tlsa}
use certforge.Dns.Rdata.{Numbers}
use certforge.Dns.Tsig.{load_tsig_signer}
use certforge.Dns.Update.{connect_updater, query_tlsa_records}
use certforge.Exec.{pure, lift, capture, when, ◌>>=◌, ◌>>◌}
use certforge.World.{text, exit, Io, Env, observe}
use certforge.Renew.Run.{is_chosen}
use certforge.Commands.Status.{println}

-- the derived `PartialEq`
unfoldable pub same_tlsa : TlsaRecord → TlsaRecord → Bool
same_tlsa a b =
    (a.usage == b.usage)
    && (a.selector == b.selector)
    && (a.matching_type == b.matching_type)
    && same a.association_data b.association_data

-- `published.contains(expected_record)`
unfoldable pub contains : TlsaRecord → List TlsaRecord → Bool
contains expected [] = false
contains expected (published ∷ records) = same_tlsa published expected || contains expected records

module _ (crates : Crates) (env : Env) where
  -- `dane_config.names.iter().zip(records.iter())`
  unfoldable pub print_records : List Text → List TlsaRecord → Io (Unit {0})
  print_records [] records = pure tt
  print_records (name ∷ names) [] = pure tt
  print_records (name ∷ names) (tlsa ∷ records) = do
    println "{name}. IN TLSA {}" (text name ∷ text (to_rdata_string crates tlsa) ∷ [])
    print_records names records

  unfoldable pub send_records : Config → DaneConfig → List TlsaRecord → Io (Unit {0})
  send_records c dane records = do
    dns_config ← lift (dns_client c dane.dns)
    _ ← load_tsig_signer crates env dns_config
    connect_updater env dns_config
    publish_tlsa crates env dns_config dane records

  unfoldable pub publish_blocks : Config → Bool → CertInfo → List DaneConfig → Io (Unit {0})
  publish_blocks c dry_run cert_info [] = pure tt
  publish_blocks c dry_run cert_info (dane ∷ entries) = do
    records ← lift (compute_tlsa_records crates cert_info dane)
    if dry_run then print_records dane.names records else send_records c dane records
    publish_blocks c dry_run cert_info entries

  unfoldable pub publish_certificate : Config → Bool → CertificateConfig → Io (Unit {0})
  publish_certificate c dry_run cert = when (not (is_empty cert.dane)) (
      load_cert crates env cert.cert_path >>= λ cert_info.
      publish_blocks c dry_run cert_info cert.dane)

  -- the first error ends the loop
  unfoldable pub publish_certificates :
      Config → Option Text → Bool → List CertificateConfig → Io (Unit {0})
  publish_certificates c name_filter dry_run [] = pure tt
  publish_certificates c name_filter dry_run (cert ∷ certs) = do
    when (is_chosen name_filter cert.name) (publish_certificate c dry_run cert)
    publish_certificates c name_filter dry_run certs

  unfoldable pub dane_publish : Config → Option Text → Bool → Io (Unit {0})
  dane_publish c name_filter dry_run = publish_certificates c name_filter dry_run c.certificates

  unfoldable pub print_found : List TlsaRecord → Io (Unit {0})
  print_found [] = pure tt
  print_found (tlsa ∷ records) = do
    println "    found:    {}" (text (to_rdata_string crates tlsa) ∷ [])
    print_found records

  unfoldable pub compare_records : TlsaRecord → Text → List TlsaRecord → Io Bool
  compare_records expected tlsa_name [] = do
    println "  {tlsa_name}: MISSING (no TLSA records published)" (text tlsa_name ∷ [])
    println "    expected: {}" (text (to_rdata_string crates expected) ∷ [])
    pure false
  compare_records expected tlsa_name (first ∷ rest) =
      if contains expected (first ∷ rest)
      then (println "  {tlsa_name}: OK" (text tlsa_name ∷ []) >> pure true)
      else (do
        println "  {tlsa_name}: MISMATCH" (text tlsa_name ∷ [])
        println "    expected: {}" (text (to_rdata_string crates expected) ∷ [])
        print_found (first ∷ rest)
        pure false)

  unfoldable pub on_answer : TlsaRecord → Text → Result (List TlsaRecord) → Io Bool
  on_answer expected tlsa_name (ok published) = compare_records expected tlsa_name published
  on_answer expected tlsa_name (err e) =
      println "  {tlsa_name}: ERROR ({e})" (text tlsa_name ∷ []) >> pure false
  on_answer expected tlsa_name panic = lift panic

  module _ (numbers : Numbers) where
    unfoldable pub check_name : TlsaRecord → Text → Io Bool
    check_name expected tlsa_name = do
      name ← lift (
          ok_or (crates.name_from_ascii tlsa_name)
            (other "invalid TLSA name '{tlsa_name}': {e}" (tlsa_name ∷ [])))
      answer ← capture (query_tlsa_records env numbers name)
      on_answer expected tlsa_name answer

    -- `all_ok` as it is after the names
    unfoldable pub check_names : TlsaRecord → Bool → List Text → Io Bool
    check_names expected all_ok [] = pure all_ok
    check_names expected all_ok (tlsa_name ∷ names) = do
      fine ← check_name expected tlsa_name
      check_names expected (all_ok && fine) names

    unfoldable pub check_block : Config → Result CertInfo → DaneConfig → Bool → Io Bool
    check_block c (ok cert_info) dane all_ok = do
      records ← lift (compute_tlsa_records crates cert_info dane)
      expected ← lift (first_record records)
      dns_config ← lift (dns_client c dane.dns)
      _ ← load_tsig_signer crates env dns_config
      connect_updater env dns_config
      check_names expected all_ok dane.names
    check_block c (err e) dane all_ok =
        println "  Certificate not found, cannot compute expected TLSA records" [] >> pure all_ok
    check_block c panic dane all_ok = lift panic

    unfoldable pub check_blocks : Config → Result CertInfo → Bool → List DaneConfig → Io Bool
    check_blocks c loaded all_ok [] = pure all_ok
    check_blocks c loaded all_ok (dane ∷ entries) = do
      so_far ← check_block c loaded dane all_ok
      check_blocks c loaded so_far entries

    unfoldable pub compare_certificate : Config → CertificateConfig → Bool → Io Bool
    compare_certificate c cert all_ok = if is_empty cert.dane then pure all_ok else (do
      println "Certificate: {}" (text cert.name ∷ [])
      loaded ← capture (load_cert crates env cert.cert_path)
      so_far ← check_blocks c loaded all_ok cert.dane
      println "" []
      pure so_far)

    unfoldable pub compare_certificates :
        Config → Option Text → Bool → List CertificateConfig → Io Bool
    compare_certificates c name_filter all_ok [] = pure all_ok
    compare_certificates c name_filter all_ok (cert ∷ certs) = do
      so_far ←
          if is_chosen name_filter cert.name then compare_certificate c cert all_ok else pure all_ok
      compare_certificates c name_filter so_far certs

    unfoldable pub dane_check : Config → Option Text → Io (Unit {0})
    dane_check c name_filter = do
      all_ok ← compare_certificates c name_filter true c.certificates
      when (not all_ok) (observe (exit 1) (λ _. tt))
