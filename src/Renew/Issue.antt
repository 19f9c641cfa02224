-- ===== src/Renew/Issue.antt =====
-- src/renew.rs, `renew_certificate` from the CSR on: order, storage, TLSA records and hooks.
use certforge.Base.{
  Text, Bytes, Dict, is_empty, Bool, true, false, not, List, [], ◌∷◌, if◌then◌else◌,
}
use certforge.Base.Paths.{parent}
use certforge.Error.{Error, key, certificate, Result, ok, err, panic}
use certforge.Config.{
  KeyType, ecdsa_p256, ecdsa_p384, rsa2048, rsa4096, DaneConfig, CertificateConfig, Config,
  dns_client,
}
use certforge.Crates.{Crates}
use certforge.Certs.{CertInfo, from_pem}
use certforge.Keys.Pair.{CertKeyPair}
use certforge.Credentials.{make_parent}
use certforge.Dane.Records.{compute_tlsa_records}
use certforge.Dane.{publish_tlsa}
use certforge.Dns.Tsig.{load_tsig_signer}
use certforge.Dns.Update.{connect_updater}
use certforge.Permissions.{ensure_permissions}
use certforge.Hooks.{run_hooks}
use certforge.Acme.{create_order, collect_challenges}
use certforge.Exec.{pure, raise, lift, capture, when, ◌>>=◌, ◌>>◌}
use certforge.World.{generate_csr, write_file, Io, Env, ask, attempt}
use certforge.Renew.{KeyResult, save_key}
use certforge.Renew.Build.{Instance, desired_types}
use certforge.Renew.Order.{zip_names, complete_order, solve}

unfoldable pub is_csr_type : KeyType → Bool
is_csr_type ecdsa_p256 = true
is_csr_type ecdsa_p384 = true
is_csr_type rsa2048 = false
is_csr_type rsa4096 = false

module _ (crates : Crates) (env : Env) where
  -- `if !b { return Err(error) }`
  abbrev pub demand : Bool → Error → Io (Unit {0})
  demand b error = if b then pure tt else raise error

  unfoldable pub csr_for : CertificateConfig → CertKeyPair → Io Bytes
  csr_for cert pair = do
    let request = generate_csr cert.key_type pair.pkcs8_der cert.domains
    demand (is_csr_type cert.key_type) (key "unsupported key type for CSR generation" [])
    demand (crates.csr_key cert.key_type pair.pkcs8_der) (key "failed to load key for CSR: {e}" [])
    demand (crates.certificate_params cert.domains) (certificate "invalid CSR params: {e}" [])
    ask request (λ h. env.generated h request) (certificate "failed to generate CSR: {e}" [])

  -- the chain of a new order
  unfoldable pub order_chain :
      Config → CertificateConfig → List Text → Dict Instance → CertKeyPair → Io Text
  order_chain c cert names solvers pair = do
    csr_der ← csr_for cert pair
    types ← lift (desired_types c cert.domains names)
    create_order env crates.is_ip cert.domains cert.profile
    challenges ← collect_challenges env types
    solve crates env (zip_names challenges names) solvers (complete_order crates env types csr_der)

  unfoldable pub save_chain : CertificateConfig → Text → Io (Unit {0})
  save_chain cert cert_pem = do
    make_parent env (parent cert.cert_path)
        (λ dir. certificate "failed to create directory {}: {e}" (dir ∷ []))
    attempt env (write_file cert.cert_path cert_pem)
        (certificate "failed to write certificate to {}: {e}" (cert.cert_path ∷ []))

  unfoldable pub publish_entry : Config → CertInfo → DaneConfig → Io (Unit {0})
  publish_entry c cert_info dane = do
    records ← lift (compute_tlsa_records crates cert_info dane)
    dns_config ← lift (dns_client c dane.dns)
    _ ← load_tsig_signer crates env dns_config
    connect_updater env dns_config
    publish_tlsa crates env dns_config dane records

  -- an error of one entry is logged only
  unfoldable pub publish_entries : Config → CertInfo → List DaneConfig → Io (Unit {0})
  publish_entries c cert_info [] = pure tt
  publish_entries c cert_info (dane ∷ entries) = do
    _ ← capture (publish_entry c cert_info dane)
    publish_entries c cert_info entries

  unfoldable pub publish_parsed : Config → List DaneConfig → Result CertInfo → Io (Unit {0})
  publish_parsed c entries (ok cert_info) = publish_entries c cert_info entries
  publish_parsed c entries (err e) = pure tt
  publish_parsed c entries panic = lift panic

  unfoldable pub publish_dane : Config → CertificateConfig → Text → Io (Unit {0})
  publish_dane c cert cert_pem =
      when (not (is_empty cert.dane)) (publish_parsed c cert.dane (from_pem crates cert_pem))

  unfoldable pub run_inline_hooks : CertificateConfig → Bool → Io (Unit {0})
  run_inline_hooks cert dry_run =
      when (not (is_empty cert.inline_hooks))
        (run_hooks env dry_run cert.inline_hooks >>= λ _. pure tt)

  unfoldable pub install : Config → CertificateConfig → KeyResult → Bool → Text → Io (Unit {0})
  install c cert key_result dry_run cert_pem = do
    save_chain cert cert_pem
    when key_result.needs_save (save_key crates env key_result.key cert)
    ensure_permissions env cert false
    publish_dane c cert cert_pem
    run_inline_hooks cert dry_run

  unfoldable pub issue :
      Config → CertificateConfig → List Text → Dict Instance → Bool → KeyResult → Io (Unit {0})
  issue c cert names solvers dry_run key_result = do
    cert_pem ← order_chain c cert names solvers key_result.key
    install c cert key_result dry_run cert_pem
