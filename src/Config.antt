-- ===== src/Config.antt =====
-- src/config.rs: the configuration as `serde` hands it over, and its look-ups.
-- A port, a count of days or a TTL is a number with the range of its Rust type; a path or a socket
-- address is its text. `HashMap`s are dictionaries in iteration order.
pub mod Zones
pub mod Modes
mod Decides
pub mod Validate
pub mod Load
pub mod Unused
pub mod Unreferenced
use certforge.Base.{Text, Dict, get, get_elem?, ℕ, Bool, Option, none, some, List, [], ◌∷◌, ◌≡◌}
use certforge.Error.{Error, config, Result, ok, err}

abbrev pub FilePath : Type 0
FilePath = Text

abbrev pub SocketAddr : Type 0
SocketAddr = Text

pub record AcmeConfig : Type 0 where
  pub directory_url : Text
  pub account_key_credential : Option FilePath
  pub account_key_path : Option FilePath
  pub contact : List Text

pub data TsigAlgorithm : Type 0 where
  hmac_sha256 hmac_sha384 hmac_sha512 : TsigAlgorithm

pub data DnsProtocol : Type 0 where
  tcp udp : DnsProtocol

pub record DnsClientConfig : Type 0 where
  pub server : Text
  pub zone : Option Text
  pub zones : Option (List Text)
  pub tsig_key_credential : Option FilePath
  pub tsig_key_path : Option FilePath
  pub tsig_key_name : Text
  pub tsig_algorithm : TsigAlgorithm
  pub port : ℕ
  pub protocol : DnsProtocol

pub data OneOrMany (T : Type 0) : Type 0 where
  one : T → OneOrMany T
  many : List T → OneOrMany T

abbrev pub to_vec : {T : Type 0} → OneOrMany T → List T
to_vec (one v) = v ∷ []
to_vec (many v) = v

pub data SolverConfig : Type 0 where
  dns01 : (dns : Text) (propagation_delay : ℕ) → SolverConfig
  http01 : (listen : Option (OneOrMany SocketAddr)) (webroot : Option FilePath) → SolverConfig
  tls_alpn01 : (listen : OneOrMany SocketAddr) → SolverConfig

pub data KeyType : Type 0 where
  ecdsa_p256 ecdsa_p384 rsa2048 rsa4096 : KeyType

pub data DaneUsage : Type 0 where
  pkix_ta pkix_ee ta ee : DaneUsage

pub data DaneSelector : Type 0 where
  full spki : DaneSelector

pub data DaneMatching : Type 0 where
  full sha256 sha512 : DaneMatching

pub record DaneConfig : Type 0 where
  pub dns : Text
  pub usage : DaneUsage
  pub selector : DaneSelector
  pub matching : DaneMatching
  pub names : List Text
  pub ttl : ℕ
  pub pre_publish : Bool

pub data HookConfig : Type 0 where
  systemd_reload : (unit : Text) → HookConfig
  systemd_restart : (unit : Text) → HookConfig
  command : (command : List Text) → HookConfig

pub record NamedHookConfig : Type 0 where
  pub name : Text
  pub hook : HookConfig

pub record CertificateConfig : Type 0 where
  pub name : Text
  pub domains : List Text
  pub key_type : KeyType
  pub key_credential : Option FilePath
  pub key_path : Option FilePath
  pub key_mode : Option Text
  pub key_owner : Option Text
  pub key_group : Option Text
  pub cert_path : FilePath
  pub cert_mode : Option Text
  pub cert_owner : Option Text
  pub cert_group : Option Text
  pub profile : Option Text
  pub renew_before_days : ℕ
  pub rotate_key : Bool
  pub solver : Option Text
  pub solvers : Option (List Text)
  pub dane : List DaneConfig
  pub hooks : List Text
  pub inline_hooks : List HookConfig

pub record Config : Type 0 where
  pub acme : AcmeConfig
  pub default_solver : Option Text
  pub dns : Dict DnsClientConfig
  pub solver : Dict SolverConfig
  pub hook : List NamedHookConfig
  pub certificates : List CertificateConfig

-- Priority: `solvers[i]`, then `solver`, then the default.
solver_from : Option (List Text) → Option Text → ℕ → Option Text → Option Text
solver_from (some solvers) single index default = get_elem? solvers index
solver_from none (some solver) index default = some solver
solver_from none none index default = default

unfoldable pub solver_for_domain : CertificateConfig → ℕ → Option Text → Option Text
unfolding solver_from
solver_for_domain cert = solver_from cert.solvers cert.solver

-- `HashMap::get` with `ok_or_else`
abbrev pub ok_or {ℓ} : {A : Type ℓ} → Option A → Error → Result A
ok_or none e = err e
ok_or (some a) e = ok a

unfoldable pub dns_client : Config → Text → Result DnsClientConfig
dns_client c name = ok_or (get name c.dns) (config "dns client '{name}' not found" (name ∷ []))

unfoldable pub solver_config : Config → Text → Result SolverConfig
solver_config c name = ok_or (get name c.solver) (config "solver '{name}' not found" (name ∷ []))
