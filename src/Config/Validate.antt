-- ===== src/Config/Validate.antt =====
-- src/config.rs, `Config::validate`, check by check in the source's order.
-- `is_ip` stands for `s.parse::<IpAddr>().is_ok()`.
pub mod Spec
mod Parts
pub mod Correct
use certforge.Base.{
  Text, show_usize, codes, get, contains_key, strip_prefix, same, any, is_empty, is_none, is_some,
  length, ◌==◌, ℕ, ◌+◌, Bool, true, false, not, ◌&&◌, Option, none, some, List, [], ◌∷◌, ◌++◌,
}
use certforge.Error.{Error, config, Result, ok, err, panic, ◌>>◌, ◌>>=◌, reject_if}
use certforge.Config.{
  FilePath, AcmeConfig, DnsClientConfig, SolverConfig, dns01, http01, tls_alpn01, DaneConfig,
  HookConfig, systemd_reload, systemd_restart, command, NamedHookConfig, CertificateConfig, Config,
  solver_for_domain,
}
use certforge.Config.Zones.{all_zones, find_zone}
use certforge.Config.Modes.{parse_mode}
use certforge.Config.Decides.{each, each_new}

abbrev pub unwrap_or {ℓ} : {A : Type ℓ} → Option A → A → A
unwrap_or none d = d
unwrap_or (some a) d = a

check_acme : AcmeConfig → Result (Unit {0})
check_acme acme = do
  reject_if (is_none acme.account_key_credential && is_none acme.account_key_path)
      (config "acme: either account_key_credential or account_key_path must be set" [])
  reject_if (is_empty acme.contact) (config "acme: contact must not be empty" [])

pub check_default : Config → Option Text → Result (Unit {0})
check_default c none = ok tt
check_default c (some name) =
    reject_if (not (contains_key name c.solver))
      (config "default_solver '{default}' not found in [solver.*]" (name ∷ []))

check_dns : Text × DnsClientConfig → Result (Unit {0})
check_dns (name, dns) = do
  reject_if (is_none dns.tsig_key_credential && is_none dns.tsig_key_path)
      (config "dns.{name}: either tsig_key_credential or tsig_key_path must be set" (name ∷ []))
  reject_if (is_empty (all_zones dns))
      (config "dns.{name}: either zone or zones must be set" (name ∷ []))

-- the check of a hook's command, with the error to give
pub check_command : Error → HookConfig → Result (Unit {0})
check_command e (systemd_reload unit) = ok tt
check_command e (systemd_restart unit) = ok tt
check_command e (command words) = reject_if (is_empty words) e

check_hooks : List NamedHookConfig → Result (Unit {0})
unfolding check_command each_new
check_hooks hooks =
    each_new (λ h. h.name) (λ h. ok tt) (λ h. config "duplicate hook name '{}'" (h.name ∷ []))
      (λ h. check_command (config "hook '{}': command hook has empty command" (h.name ∷ [])) h.hook)
      [] hooks

pub check_solver : Config → Text × SolverConfig → Result (Unit {0})
check_solver c (name, dns01 dns _) =
    reject_if (not (contains_key dns c.dns))
      (config "solver.{name}: dns client '{dns}' not found in [dns.*]" (name ∷ dns ∷ []))
check_solver c (name, http01 listen webroot) = do
  reject_if (is_none listen && is_none webroot)
      (config "solver.{name}: either listen or webroot must be set" (name ∷ []))
  reject_if (is_some listen && is_some webroot)
      (config "solver.{name}: listen and webroot are mutually exclusive" (name ∷ []))
check_solver c (name, tls_alpn01 _) = ok tt

-- a mode's own error is replaced by one that names the certificate
with_error : {A : Type 0} → Error → Result A → Result (Unit {0})
with_error e (ok a) = ok tt
with_error e (err _) = err e
with_error e panic = panic

pub check_mode : (Text → Error) → Option Text → Result (Unit {0})
unfolding with_error
check_mode e none = ok tt
check_mode e (some mode) = with_error (e mode) (parse_mode mode)

check_solvers_length : CertificateConfig → Option (List Text) → Result (Unit {0})
check_solvers_length cert none = ok tt
check_solvers_length cert (some solvers) = reject_if (not (length solvers == length cert.domains)) (
    config "certificate {}: solvers length ({}) must match domains length ({})"
      (cert.name ∷ show_usize (length solvers) ∷ show_usize (length cert.domains) ∷ []))

-- the name of the TXT record that answers a DNS-01 challenge for the domain
unfoldable pub challenge_name : Text → Text
challenge_name domain =
    codes "_acme-challenge." ++ unwrap_or (strip_prefix (codes "*.") domain) domain

module _ (is_ip : Text → Bool) (c : Config) where
  -- the domain's challenge name has to lie in a zone of the client, if there is such a client
  check_zone : CertificateConfig → Text → Text → Option DnsClientConfig → Result (Unit {0})
  check_zone cert domain dns_name none = ok tt
  check_zone cert domain dns_name (some dns) =
      reject_if (is_none (find_zone dns (challenge_name domain))) (
        config "certificate {}: domain '{domain}' does not match any zone in dns.{dns_name} ({:?})"
          (cert.name ∷ domain ∷ dns_name ∷ []))

  check_solver_kind : CertificateConfig → Text → SolverConfig → Result (Unit {0})
  unfolding check_zone
  check_solver_kind cert domain (dns01 dns _) = do
    reject_if (is_ip domain) (
        config "certificate {}: DNS-01 solver cannot be used with IP address {domain}"
          (cert.name ∷ domain ∷ []))
    check_zone cert domain dns (get dns c.dns)
  check_solver_kind cert domain (http01 _ _) = ok tt
  check_solver_kind cert domain (tls_alpn01 _) = ok tt

  check_solver_defined : CertificateConfig → Text → Text → Option SolverConfig → Result (Unit {0})
  check_solver_defined cert domain name none =
      err (config "certificate {}: solver '{name}' not found in [solver.*]" (cert.name ∷ name ∷ []))
  check_solver_defined cert domain name (some solver) = check_solver_kind cert domain solver

  check_solver_named : CertificateConfig → Text → Option Text → Result (Unit {0})
  check_solver_named cert domain none = err (
      config
        "certificate {}: no solver configured for domain '{domain}' (set solver, solvers, or default_solver)"
        (cert.name ∷ domain ∷ []))
  check_solver_named cert domain (some name) =
      check_solver_defined cert domain name (get name c.solver)

  -- `for (i, domain) in cert.domains.iter().enumerate()`
  check_domains : CertificateConfig → ℕ → List Text → Result (Unit {0})
  check_domains cert i [] = ok tt
  check_domains cert i (domain ∷ domains) = do
    check_solver_named cert domain (solver_for_domain cert i c.default_solver)
    check_domains cert (i + 1) domains

  -- `if let Some(dns_config) = self.dns.get(&dane.dns)`
  check_dane_names : CertificateConfig → DaneConfig → Option DnsClientConfig → Result (Unit {0})
  unfolding each
  check_dane_names cert dane none = ok tt
  check_dane_names cert dane (some dns) =
      each
        (λ name. reject_if (is_none (find_zone dns name)) (
          config "certificate {}: DANE name '{tlsa_name}' does not match any zone in dns.{} ({:?})"
            (cert.name ∷ name ∷ dane.dns ∷ [])))
        dane.names

  check_dane : CertificateConfig → DaneConfig → Result (Unit {0})
  unfolding check_dane_names
  check_dane cert dane = do
    reject_if (is_empty dane.names)
        (config "certificate {}: dane block has empty names" (cert.name ∷ []))
    reject_if (not (contains_key dane.dns c.dns)) (
        config "certificate {}: dane dns client '{}' not found in [dns.*]"
          (cert.name ∷ dane.dns ∷ []))
    check_dane_names cert dane (get dane.dns c.dns)

  -- the body of the loop over the certificates, behind the test for a second name
  check_certificate : CertificateConfig → Result (Unit {0})
  unfolding check_mode check_solvers_length check_domains check_solver_named check_solver_defined
      check_solver_kind check_dane check_command each
  check_certificate cert = do
    reject_if (is_empty cert.domains)
        (config "certificate {}: domains must not be empty" (cert.name ∷ []))
    reject_if (is_none cert.key_credential && is_none cert.key_path)
        (config "certificate {}: either key_credential or key_path must be set" (cert.name ∷ []))
    check_mode (λ mode. config "certificate {}: invalid key_mode '{mode}'" (cert.name ∷ mode ∷ []))
        cert.key_mode
    check_mode (λ mode. config "certificate {}: invalid cert_mode '{mode}'" (cert.name ∷ mode ∷ []))
        cert.cert_mode
    reject_if (is_some cert.solver && is_some cert.solvers)
        (config "certificate {}: solver and solvers are mutually exclusive" (cert.name ∷ []))
    check_solvers_length cert cert.solvers
    check_domains cert 0 cert.domains
    each (check_dane cert) cert.dane
    each
        (λ hook_name. reject_if (not (any (λ h. same h.name hook_name) c.hook)) (
          config "certificate {}: hook '{hook_name}' not found in [[hook]]"
            (cert.name ∷ hook_name ∷ [])))
        cert.hooks
    each (check_command (config "certificate {}: command hook has empty command" (cert.name ∷ [])))
        cert.inline_hooks

  check_certificates : List CertificateConfig → Result (Unit {0})
  unfolding check_certificate each_new
  check_certificates certs =
      each_new (λ cert. cert.name)
        (λ cert. reject_if (is_empty cert.name) (config "certificate: name must not be empty" []))
        (λ cert. config "duplicate certificate name '{}'" (cert.name ∷ [])) check_certificate []
        certs

  -- the warnings about unused definitions, which follow, change nothing
  unfoldable pub validate : Result (Unit {0})
  unfolding check_acme check_default check_dns check_hooks check_solver check_certificates each
  validate = do
    check_acme c.acme
    check_default c c.default_solver
    each check_dns c.dns
    check_hooks c.hook
    each (check_solver c) c.solver
    check_certificates c.certificates
