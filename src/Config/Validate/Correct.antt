-- ===== src/Config/Validate/Correct.antt =====
-- `Config::validate` accepts exactly the valid configurations.
use certforge.Base.{
  Text, get, same, same_iff, any, is_some, length, ◌==◌, Any, All, All-imp, map, ℕ, ◌+◌, Bool,
  false, not, ◌&&◌, Option, none, some, List, [], ◌∷◌, ◌≡◌, ◌≢◌, ◌↔◌, ◌⊎◌, refl, sym, ◌∙◌, inl, inr,
  arith, Bool-cases, eq_of_some,
}
use certforge.Error.{Error, ok, reject_if}
use certforge.Config.{
  DnsClientConfig, SolverConfig, dns01, http01, tls_alpn01, DaneConfig, NamedHookConfig,
  CertificateConfig, Config, solver_for_domain,
}
use certforge.Config.Zones.{all_zones}
use certforge.Config.Decides.{
  NoDup, Decides, Decides-pass, Decides-seq, Decides-reject, Decides-iff, Decides-each,
  Decides-each_new,
}
use certforge.Config.Validate.{
  check_acme, check_dns, check_command, check_hooks, check_solver, check_solvers_length,
  challenge_name, check_zone, check_solver_kind, check_solver_defined, check_solver_named,
  check_domains, check_dane_names, check_dane, check_certificate, check_certificates, validate,
}
use certforge.Config.Validate.Parts.{
  Decides-secret, Decides-filled, Decides-IsDefined, Decides-zone, Decides-command, Decides-IsMode,
  Decides-solver, Decides-default,
}
use certforge.Config.Validate.Spec.{
  HasSecret, IsCommandFilled, HasZone, IsSolverValid, IsDnsValid, Serves, IsSolved, AllSolved,
  IsDaneValid, IsCertificateValid, IsValid,
}

module _ (is_ip : Text → Bool) (c : Config) where
  Decides-check_zone :
      (cert : CertificateConfig) (domain dns_name : Text) (found : Option DnsClientConfig)
      → Decides (check_zone is_ip c cert domain dns_name found) (
          (client : DnsClientConfig) → found ≡ some client → HasZone client (challenge_name domain))
  unfolding check_zone
  Decides-check_zone cert domain dns_name none = record {
    sound = λ h client q. cc;
    complete = λ h. refl;
  }
  Decides-check_zone cert domain dns_name (some dns) =
      Decides-iff _ (Decides-zone dns (challenge_name domain) _)
        (λ z client q. rw (← eq_of_some dns client q) z) (λ h. h dns refl)

  Decides-kind :
      (cert : CertificateConfig) (domain : Text) (s : SolverConfig)
      → Decides (check_solver_kind is_ip c cert domain s) (Serves is_ip c domain s)
  unfolding check_solver_kind
  Decides-kind cert domain (dns01 dns _) =
      Decides-seq (reject_if (is_ip domain) _) _ (Decides-reject (is_ip domain) _ (λ e. e) (λ e. e))
        (Decides-check_zone cert domain dns (get dns c.dns))
  Decides-kind cert domain (http01 _ _) = Decides-pass
  Decides-kind cert domain (tls_alpn01 _) = Decides-pass

  -- the two look-ups, with the result of the inner one
  Decides-found :
      (cert : CertificateConfig) (domain name : Text) (found : Option SolverConfig)
      → Decides
          (check_solver_defined is_ip c cert domain name found)
          ((s : SolverConfig) × (found ≡ some s) × Serves is_ip c domain s)
  unfolding check_solver_defined
  Decides-found cert domain name none = record { sound = λ h. cc; complete = λ (s, q, _). cc }
  Decides-found cert domain name (some s) =
      Decides-iff _ (Decides-kind cert domain s) (λ h. (s, refl, h))
        (λ (t, q, h). rw (eq_of_some s t q) h)

  Decides-named :
      (cert : CertificateConfig) (i : ℕ) (domain : Text) (chosen : Option Text)
      → solver_for_domain cert i c.default_solver ≡ chosen
      → Decides (check_solver_named is_ip c cert domain chosen) (IsSolved is_ip c cert i domain)
  unfolding check_solver_named
  Decides-named cert i domain none e = record { sound = λ h. cc; complete = λ s. cc (s.chosen) }
  Decides-named cert i domain (some name) e =
      Decides-iff _ (Decides-found cert domain name (get name c.solver))
        (λ (s, q, h). record { name = name; solver = s; chosen = e; defined = q; serves = h })
        (λ s. (s.solver, rw (eq_of_some name s.name (sym e ∙ s.chosen)) s.defined, s.serves))

  Decides-domains :
      (cert : CertificateConfig) (i : ℕ) (domains : List Text)
      → Decides (check_domains is_ip c cert i domains) (AllSolved is_ip c cert i domains)
  unfolding check_domains
  Decides-domains cert i [] = Decides-pass
  Decides-domains cert i (d ∷ ds) =
      Decides-seq _ (check_domains is_ip c cert (i + 1) ds)
        (Decides-named cert i d (solver_for_domain cert i c.default_solver) refl)
        (Decides-domains cert (i + 1) ds)

  Decides-dane_names :
      (cert : CertificateConfig) (dane : DaneConfig) (found : Option DnsClientConfig)
      → Decides
          (check_dane_names is_ip c cert dane found)
          ((client : DnsClientConfig) → found ≡ some client → All (HasZone client) dane.names)
  unfolding check_dane_names
  Decides-dane_names cert dane none = record { sound = λ h client q. cc; complete = λ h. refl }
  Decides-dane_names cert dane (some dns) =
      Decides-iff _ (Decides-each _ (HasZone dns) dane.names (λ name. Decides-zone dns name _))
        (λ z client q. rw (← eq_of_some dns client q) z) (λ h. h dns refl)

  Decides-dane :
      (cert : CertificateConfig) (dane : DaneConfig)
      → Decides (check_dane is_ip c cert dane) (IsDaneValid c dane)
  unfolding check_dane
  Decides-dane cert dane =
      Decides-iff _
        (Decides-seq _ _ (Decides-filled dane.names _) (
          Decides-seq _ _ (Decides-IsDefined dane.dns c.dns _)
            (Decides-dane_names cert dane (get dane.dns c.dns))))
        (λ (named, ((client, q), zoned)). record {
          named = named;
          client = client;
          defined = q;
          zoned = zoned client q;
        })
        (λ d. (
          d.named,
          (
            (d.client, d.defined),
            λ client q. rw (eq_of_some client d.client (sym q ∙ d.defined)) d.zoned,
          ),
        ))

  Decides-solvers_length :
      (cert : CertificateConfig) (given : Option (List Text))
      → Decides
          (check_solvers_length cert given)
          ((solvers : List Text) → given ≡ some solvers → length solvers ≡ length cert.domains)
  unfolding check_solvers_length
  Decides-solvers_length cert none = record { sound = λ h s q. cc; complete = λ h. refl }
  Decides-solvers_length cert (some solvers) =
      Decides-iff _
        (Decides-reject {P = length solvers ≡ length cert.domains}
          (not (length solvers == length cert.domains)) _ (λ e. ground arith) (λ e. ground arith))
        (λ e s q. rw (← eq_of_some solvers s q) e) (λ h. h solvers refl)

  Decides-one_choice :
      (solver : Option Text) (solvers : Option (List Text)) (e : Error)
      → Decides
          (reject_if (is_some solver && is_some solvers) e)
          ((solver ≡ none) ⊎ (solvers ≡ none))
  Decides-one_choice none solvers e = record { sound = λ h. inl refl; complete = λ h. refl }
  Decides-one_choice (some s) none e = record { sound = λ h. inr refl; complete = λ h. refl }
  Decides-one_choice (some s) (some ss) e = record { sound = λ h. cc; complete = λ h. neither h }
    where
      neither :
          (some s ≡ none) ⊎ (some ss ≡ none)
          → reject_if (is_some (some s) && is_some (some ss)) e ≡ ok tt
      neither (inl q) = cc
      neither (inr q) = cc

  Decides-hook :
      (name : Text) (hooks : List NamedHookConfig) (e : Error)
      → Decides
          (reject_if (not (any (λ h. same h.name name) hooks)) e)
          (Any (λ (h : NamedHookConfig). h.name ≡ name) hooks)
  Decides-hook name [] e = record { sound = λ h. cc; complete = λ h. absurd h }
  Decides-hook name (h ∷ hooks) e = elim (Bool-cases (same h.name name)) [
    | inl q ↦ rw q (record { sound = λ _. inl ((same_iff h.name name).0 q); complete = λ _. refl })
    | inr q ↦ rw q (Decides-iff _ (Decides-hook name hooks e) (λ m. inr m) (λ m. rest q m))
  ]
    where
      rest :
          same h.name name ≡ false
          → Any (λ (k : NamedHookConfig). k.name ≡ name) (h ∷ hooks)
          → Any (λ (k : NamedHookConfig). k.name ≡ name) hooks
      rest q (inl p) = ground (arith, same_iff h.name name)
      rest q (inr m) = m

  Decides-certificate :
      (cert : CertificateConfig)
      → Decides (check_certificate is_ip c cert) (IsCertificateValid is_ip c cert)
  unfolding check_certificate
  Decides-certificate cert =
      Decides-iff _
        (Decides-seq _ _ (Decides-filled cert.domains _) (
          Decides-seq _ _ (Decides-secret cert.key_credential cert.key_path _) (
            Decides-seq _ _ (Decides-IsMode _ cert.key_mode) (
              Decides-seq _ _ (Decides-IsMode _ cert.cert_mode) (
                Decides-seq _ _ (Decides-one_choice cert.solver cert.solvers _) (
                  Decides-seq _ _ (Decides-solvers_length cert cert.solvers) (
                    Decides-seq _ _ (Decides-domains cert 0 cert.domains) (
                      Decides-seq _ _
                        (Decides-each (check_dane is_ip c cert) (IsDaneValid c) cert.dane
                          (Decides-dane cert))
                        (Decides-seq _ _
                          (Decides-each _
                            (λ name. Any (λ (h : NamedHookConfig). h.name ≡ name) c.hook) cert.hooks
                            (λ name. Decides-hook name c.hook _))
                          (Decides-each (check_command _) IsCommandFilled cert.inline_hooks
                            (Decides-command _)))))))))))
        (λ (h1, (h2, (h3, (h4, (h5, (h6, (h7, (h8, (h9, h10))))))))). record {
          has_domain = h1;
          has_key = h2;
          key_mode = h3;
          cert_mode = h4;
          one_choice = h5;
          matched = h6;
          solved = h7;
          dane = h8;
          hooks = h9;
          inline_hooks = h10;
        })
        (λ v. (
          v.has_domain,
          (
            v.has_key,
            (
              v.key_mode,
              (
                v.cert_mode,
                (v.one_choice, (v.matched, (v.solved, (v.dane, (v.hooks, v.inline_hooks))))),
              ),
            ),
          ),
        ))

  Decides-certificates : Decides (check_certificates is_ip c c.certificates) (
      All
        (λ (cert : CertificateConfig). (cert.name ≢ []) × IsCertificateValid is_ip c cert)
        c.certificates
      × NoDup (map (λ (cert : CertificateConfig). cert.name) c.certificates))
  unfolding check_certificates
  Decides-certificates =
      Decides-each_new (λ cert. cert.name) _ _ (check_certificate is_ip c) (λ cert. cert.name ≢ [])
        (IsCertificateValid is_ip c) (λ cert. Decides-filled cert.name _) Decides-certificate
        c.certificates

  Decides-hooks : Decides (check_hooks c.hook) (
      All (λ (h : NamedHookConfig). IsCommandFilled h.hook) c.hook
      × NoDup (map (λ (h : NamedHookConfig). h.name) c.hook))
  unfolding check_hooks
  Decides-hooks =
      Decides-iff _
        (Decides-each_new (λ h. h.name) _ _ _ (λ h. Unit {0}) (λ h. IsCommandFilled h.hook)
          (λ h. Decides-pass) (λ h. Decides-command _ h.hook) c.hook)
        (λ r. (All-imp (λ h. Unit {0} × IsCommandFilled h.hook) _ c.hook (λ h p. p.1) r.0, r.1))
        (λ r. (
          All-imp (λ (h : NamedHookConfig). IsCommandFilled h.hook) _ c.hook (λ h p. (tt, p)) r.0,
          r.1,
        ))

  Decides-dns : (entry : Text × DnsClientConfig) → Decides (check_dns entry) (IsDnsValid entry.1)
  unfolding check_dns
  Decides-dns (name, dns) =
      Decides-seq _ _ (Decides-secret dns.tsig_key_credential dns.tsig_key_path _)
        (Decides-filled (all_zones dns) _)

  Decides-acme :
      Decides
        (check_acme c.acme)
        (HasSecret c.acme.account_key_credential c.acme.account_key_path × (c.acme.contact ≢ []))
  unfolding check_acme
  Decides-acme =
      Decides-seq _ _ (Decides-secret c.acme.account_key_credential c.acme.account_key_path _)
        (Decides-filled c.acme.contact _)

  Decides-validate : Decides (validate is_ip c) (IsValid is_ip c)
  unfolding validate
  Decides-validate =
      Decides-iff _
        (Decides-seq _ _ Decides-acme (
          Decides-seq _ _ (Decides-default c c.default_solver) (
            Decides-seq _ _ (Decides-each check_dns (λ entry. IsDnsValid entry.1) c.dns Decides-dns)
              (Decides-seq _ _ Decides-hooks (
                Decides-seq _ _
                  (Decides-each (check_solver c) (λ entry. IsSolverValid c entry.1) c.solver
                    (λ (name, s). Decides-solver c name s))
                  Decides-certificates)))))
        (λ (acme, (default, (dns, (hooks, (solvers, certificates))))). record {
          account = acme.0;
          contact = acme.1;
          default_solver = default;
          dns = dns;
          hooks = hooks.0;
          hooks_differ = hooks.1;
          solvers = solvers;
          certificates = certificates.0;
          certificates_differ = certificates.1;
        })
        (λ v. (
          (v.account, v.contact),
          (
            v.default_solver,
            (
              v.dns,
              ((v.hooks, v.hooks_differ), (v.solvers, (v.certificates, v.certificates_differ))),
            ),
          ),
        ))

  -- A configuration passes `validate` exactly when it is valid.
  pub validate_iff : (validate is_ip c ≡ ok tt) ↔ IsValid is_ip c
  validate_iff = (Decides-validate.sound, Decides-validate.complete)
