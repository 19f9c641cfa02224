-- ===== src/Config/Validate/Spec.antt =====
-- What a valid configuration is, as predicates, with none of the tests of `Config::validate`.
use certforge.Base.{
  Text, get, In, Any, All, map, length, ℕ, ◌+◌, Bool, false, Option, none, some, List, [], ◌∷◌, ◌≡◌,
  ◌≢◌, ◌⊎◌,
}
use certforge.Config.{
  FilePath, DnsClientConfig, SolverConfig, dns01, http01, tls_alpn01, DaneConfig, HookConfig,
  systemd_reload, systemd_restart, command, NamedHookConfig, CertificateConfig, Config,
  solver_for_domain,
}
use certforge.Config.Zones.{all_zones, LiesIn}
use certforge.Config.Modes.{Denotes}
use certforge.Config.Decides.{NoDup}
use certforge.Config.Validate.{challenge_name}

-- A secret has a place: a credential or a plain file.
abbrev pub HasSecret : Option FilePath → Option FilePath → Type 0
HasSecret credential path = (credential ≢ none) ⊎ (path ≢ none)

abbrev pub IsCommandFilled : HookConfig → Type 0
IsCommandFilled (command words) = words ≢ []
IsCommandFilled (systemd_reload _) = Unit
IsCommandFilled (systemd_restart _) = Unit

abbrev pub IsMode : Option Text → Type 0
IsMode none = Unit
IsMode (some mode) = (n : ℕ) × Denotes mode n

abbrev pub HasZone : DnsClientConfig → Text → Type 0
HasZone dns name = (zone : Text) × In zone (all_zones dns) × LiesIn name zone

abbrev pub IsDefined : {V : Type 0} → Text → List (Text × V) → Type 0
IsDefined {V} name m = (v : V) × (get name m ≡ some v)

abbrev pub IsSolverValid : Config → SolverConfig → Type 0
IsSolverValid c (dns01 dns _) = IsDefined dns c.dns
IsSolverValid c (http01 listen webroot) =
    ((listen ≢ none) × (webroot ≡ none)) ⊎ ((listen ≡ none) × (webroot ≢ none))
IsSolverValid c (tls_alpn01 _) = Unit

abbrev pub IsDnsValid : DnsClientConfig → Type 0
IsDnsValid dns = HasSecret dns.tsig_key_credential dns.tsig_key_path × (all_zones dns ≢ [])

pub record IsDaneValid (c : Config) (dane : DaneConfig) : Type 0 where
  pub named : dane.names ≢ []
  pub client : DnsClientConfig
  pub defined : get dane.dns c.dns ≡ some client
  pub zoned : All (HasZone client) dane.names

module _ (is_ip : Text → Bool) (c : Config) where
  -- a solver that can answer a challenge for the domain
  abbrev pub Serves : Text → SolverConfig → Type 0
  Serves domain (dns01 dns _) =
      (is_ip domain ≡ false)
      × ((client : DnsClientConfig)
          → get dns c.dns ≡ some client
          → HasZone client (challenge_name domain))
  Serves domain (http01 _ _) = Unit
  Serves domain (tls_alpn01 _) = Unit

  -- the solver chosen for the `i`-th domain is defined and serves it
  pub record IsSolved (cert : CertificateConfig) (i : ℕ) (domain : Text) : Type 0 where
    pub name : Text
    pub solver : SolverConfig
    pub chosen : solver_for_domain cert i c.default_solver ≡ some name
    pub defined : get name c.solver ≡ some solver
    pub serves : Serves domain solver

  abbrev pub AllSolved : CertificateConfig → ℕ → List Text → Type 0
  AllSolved cert i [] = Unit
  AllSolved cert i (domain ∷ domains) = IsSolved cert i domain × AllSolved cert (i + 1) domains

  pub record IsCertificateValid (cert : CertificateConfig) : Type 0 where
    pub has_domain : cert.domains ≢ []
    pub has_key : HasSecret cert.key_credential cert.key_path
    pub key_mode : IsMode cert.key_mode
    pub cert_mode : IsMode cert.cert_mode
    pub one_choice : (cert.solver ≡ none) ⊎ (cert.solvers ≡ none)
    pub matched :
        (solvers : List Text) → cert.solvers ≡ some solvers → length solvers ≡ length cert.domains
    pub solved : AllSolved cert 0 cert.domains
    pub dane : All (IsDaneValid c) cert.dane
    pub hooks :
        All (λ hook_name. Any (λ (h : NamedHookConfig). h.name ≡ hook_name) c.hook) cert.hooks
    pub inline_hooks : All IsCommandFilled cert.inline_hooks

  pub record IsValid : Type 0 where
    pub account : HasSecret c.acme.account_key_credential c.acme.account_key_path
    pub contact : c.acme.contact ≢ []
    pub default_solver : (name : Text) → c.default_solver ≡ some name → IsDefined name c.solver
    pub dns : All (λ ((name, client) : Text × DnsClientConfig). IsDnsValid client) c.dns
    pub hooks : All (λ (h : NamedHookConfig). IsCommandFilled h.hook) c.hook
    pub hooks_differ : NoDup (map (λ (h : NamedHookConfig). h.name) c.hook)
    pub solvers : All (λ ((name, solver) : Text × SolverConfig). IsSolverValid c solver) c.solver
    pub certificates :
        All
          (λ (cert : CertificateConfig). (cert.name ≢ []) × IsCertificateValid cert)
          c.certificates
    pub certificates_differ : NoDup (map (λ (cert : CertificateConfig). cert.name) c.certificates)
