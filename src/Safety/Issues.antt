-- ===== src/Safety/Issues.antt =====
-- A certificate's order, and what is done with the chain (src/renew.rs), and where they may panic.
use certforge.Base.{Text, Dict, Bool, true, false, List, [], ◌∷◌, ◌≢◌}
use certforge.Error.{Error, Result, ok, err, panic}
use certforge.Config.{DaneConfig, CertificateConfig, Config}
use certforge.Crates.{Crates}
use certforge.Certs.{CertInfo, from_pem-ne-panic}
use certforge.Keys.Pair.{CertKeyPair}
use certforge.Exec.Logs.{lift-ok}
use certforge.Exec.Panics.{
  IsSafe, IsSafe-ne, NeverPanics, NeverPanics-pure, NeverPanics-raise, NeverPanics-lift,
  NeverPanics-bind, NeverPanics-bind_ok, NeverPanics-capture, NeverPanics-when, NeverPanics-ask,
  panic_rules,
}
use certforge.World.{Env}
use certforge.Renew.{KeyResult}
use certforge.Renew.Build.{Instance}
use certforge.Renew.Issue.{
  csr_for, demand, order_chain, save_chain, publish_entry, publish_entries, publish_parsed,
  publish_dane, run_inline_hooks, install, issue,
}
use certforge.Safety.Files.{
  make_parent-NeverPanics, ensure_permissions-NeverPanics, run_hooks-NeverPanics,
}
use certforge.Safety.Dns.{
  dns_client-IsSafe, load_tsig_signer-NeverPanics, connect_updater-NeverPanics,
  publish_tlsa-NeverPanics, first_record-compute_tlsa_records, compute_tlsa_records-IsSafe,
}
use certforge.Safety.Orders.{
  create_order-NeverPanics, collect_challenges-NeverPanics, complete_order-NeverPanics,
}
use certforge.Safety.Challenges.{solve-NeverPanics}
use certforge.Safety.Builds.{AreReady, desired_types-IsSafe}
use certforge.Safety.Keys.{AllNamed, save_key-NeverPanics}

module _ (crates : Crates) (env : Env) where
  demand-NeverPanics : (b : Bool) (error : Error) → NeverPanics (demand crates env b error)
  demand-NeverPanics true error = NeverPanics-pure tt
  demand-NeverPanics false error = NeverPanics-raise error

  csr_for-NeverPanics :
      (cert : CertificateConfig) (pair : CertKeyPair) → NeverPanics (csr_for crates env cert pair)
  unfolding csr_for
  csr_for-NeverPanics cert pair = NeverPanics-bind _ _ (demand-NeverPanics _ _) λ _.
      NeverPanics-bind _ _ (demand-NeverPanics _ _)
        λ _. NeverPanics-bind _ _ (demand-NeverPanics _ _) λ _. NeverPanics-ask _ _ _

  order_chain-NeverPanics :
      (c : Config) (cert : CertificateConfig) (names : List Text) (solvers : Dict Instance)
      (pair : CertKeyPair)
      → AreReady env names solvers
      → NeverPanics (order_chain crates env c cert names solvers pair)
  unfolding order_chain
  order_chain-NeverPanics c cert names solvers pair h =
      NeverPanics-bind _ _ (csr_for-NeverPanics cert pair) λ csr_der.
        NeverPanics-bind _ _ (NeverPanics-lift _ (desired_types-IsSafe c cert.domains names))
          λ types. NeverPanics-bind _ _ (create_order-NeverPanics env _ _ _) λ _.
            NeverPanics-bind _ _ (collect_challenges-NeverPanics env types) λ challenges.
              solve-NeverPanics crates env challenges names solvers _ h.0 h.1
                λ started quiet. complete_order-NeverPanics env crates types csr_der started quiet

  save_chain-NeverPanics :
      (cert : CertificateConfig) (cert_pem : Text)
      → NeverPanics (save_chain crates env cert cert_pem)
  unfolding save_chain
  save_chain-NeverPanics cert cert_pem = search (panic_rules, make_parent-NeverPanics)

  publish_entry-NeverPanics :
      (c : Config) (info : CertInfo) (dane : DaneConfig)
      → dane.names ≢ []
      → NeverPanics (publish_entry crates env c info dane)
  unfolding publish_entry
  publish_entry-NeverPanics c info dane named =
      NeverPanics-bind_ok _ _ (NeverPanics-lift _ (compute_tlsa_records-IsSafe crates dane info))
        λ records h q.
          NeverPanics-bind _ _ (NeverPanics-lift _ (dns_client-IsSafe c dane.dns)) λ dns_config.
            NeverPanics-bind _ _ (load_tsig_signer-NeverPanics env crates dns_config) λ _.
              NeverPanics-bind _ _ (connect_updater-NeverPanics env dns_config) λ _.
                publish_tlsa-NeverPanics env crates dns_config dane records
                  (first_record-compute_tlsa_records crates dane info records named (lift-ok _ h q))

  publish_entries-NeverPanics :
      (c : Config) (info : CertInfo) (entries : List DaneConfig)
      → AllNamed entries
      → NeverPanics (publish_entries crates env c info entries)
  unfolding publish_entries
  publish_entries-NeverPanics c info [] named = NeverPanics-pure tt
  publish_entries-NeverPanics c info (dane ∷ entries) named =
      NeverPanics-bind _ _ (NeverPanics-capture _ (publish_entry-NeverPanics c info dane named.0))
        λ _. publish_entries-NeverPanics c info entries named.1

  publish_parsed-NeverPanics :
      (c : Config) (entries : List DaneConfig) (parsed : Result CertInfo)
      → AllNamed entries
      → IsSafe parsed
      → NeverPanics (publish_parsed crates env c entries parsed)
  unfolding publish_parsed
  publish_parsed-NeverPanics c entries (ok info) named safe =
      publish_entries-NeverPanics c info entries named
  publish_parsed-NeverPanics c entries (err e) named safe = NeverPanics-pure tt
  publish_parsed-NeverPanics c entries panic named safe = absurd safe.not_panic

  publish_dane-NeverPanics :
      (c : Config) (cert : CertificateConfig) (cert_pem : Text)
      → AllNamed cert.dane
      → NeverPanics (publish_dane crates env c cert cert_pem)
  unfolding publish_dane
  publish_dane-NeverPanics c cert cert_pem named = NeverPanics-when _ _ (
      publish_parsed-NeverPanics c cert.dane _ named
        (IsSafe-ne _ (from_pem-ne-panic crates cert_pem)))

  run_inline_hooks-NeverPanics :
      (cert : CertificateConfig) (dry_run : Bool)
      → NeverPanics (run_inline_hooks crates env cert dry_run)
  unfolding run_inline_hooks
  run_inline_hooks-NeverPanics cert dry_run = search (panic_rules, run_hooks-NeverPanics)

  install-NeverPanics :
      (c : Config) (cert : CertificateConfig) (key : KeyResult) (dry_run : Bool) (cert_pem : Text)
      → AllNamed cert.dane
      → NeverPanics (install crates env c cert key dry_run cert_pem)
  unfolding install
  install-NeverPanics c cert key dry_run cert_pem named =
      NeverPanics-bind _ _ (save_chain-NeverPanics cert cert_pem) λ _.
        NeverPanics-bind _ _ (NeverPanics-when _ _ (save_key-NeverPanics crates env key.key cert))
          λ _. NeverPanics-bind _ _ (ensure_permissions-NeverPanics env cert false) λ _.
            NeverPanics-bind _ _ (publish_dane-NeverPanics c cert cert_pem named)
              λ _. run_inline_hooks-NeverPanics cert dry_run

  pub issue-NeverPanics :
      (c : Config) (cert : CertificateConfig) (names : List Text) (solvers : Dict Instance)
      (dry_run : Bool) (key : KeyResult)
      → AreReady env names solvers
      → AllNamed cert.dane
      → NeverPanics (issue crates env c cert names solvers dry_run key)
  unfolding issue
  issue-NeverPanics c cert names solvers dry_run key h named =
      NeverPanics-bind _ _ (order_chain-NeverPanics c cert names solvers key.key h)
        λ cert_pem. install-NeverPanics c cert key dry_run cert_pem named
