-- ===== src/Tests.antt =====
-- A configuration with one solver of each kind, and the theorems at concrete inputs.
pub mod Crates
pub mod Parts
pub mod Keys
pub mod Renewal
pub mod Solvers
pub mod Settled
pub mod Runs
pub mod Commands
use certforge.Base.{
  Text, codes, same, get, ◌≡◌, refl, ◌↔◌, Bool, true, false, none, some, [], ◌∷◌, ◌≤◌, In, length,
  trim_dots, ends_with, strip_prefix,
}
use certforge.Error.{ok, err, is_ok}
use certforge.Error
use certforge.Config.{
  hmac_sha256, tcp, DnsClientConfig, one, dns01, http01, tls_alpn01, ecdsa_p256, ee, spki,
  DaneMatching, DaneConfig, systemd_reload, command, CertificateConfig, Config, solver_for_domain,
}
use certforge.Config.Zones.{all_zones, LiesIn, find_zone, find_zone-some, find_zone-none, canonical}
use certforge.Config.Modes.{parse_mode, Denotes, parse_mode_iff}
use certforge.Config.Validate.{validate, challenge_name}
use certforge.Config.Validate.Spec.{IsValid}
use certforge.Config.Validate.Correct.{validate_iff}

abbrev pub client : DnsClientConfig
client = record {
  server = codes "ns1.example.com";
  zone = some (codes "example.com");
  zones = some (codes "mail.example.com." ∷ codes "example.org" ∷ []);
  tsig_key_credential = none;
  tsig_key_path = some (codes "/etc/certforge/tsig.key");
  tsig_key_name = codes "certforge.";
  tsig_algorithm = hmac_sha256;
  port = 53;
  protocol = tcp;
}

abbrev pub mail_dane : DaneConfig
mail_dane = record {
  dns = codes "main";
  usage = ee;
  selector = spki;
  matching = DaneMatching.sha256;
  names = codes "_25._tcp.mail.example.com" ∷ [];
  ttl = 300;
  pre_publish = true;
}

abbrev pub mail : CertificateConfig
mail = record {
  name = codes "mail";
  domains = codes "*.Mail.example.com" ∷ codes "10.0.0.1" ∷ [];
  key_type = ecdsa_p256;
  key_credential = none;
  key_path = some (codes "/etc/certforge/keys/mail.key");
  key_mode = some (codes "0640");
  key_owner = none;
  key_group = none;
  cert_path = codes "/etc/certforge/certs/mail.pem";
  cert_mode = none;
  cert_owner = none;
  cert_group = none;
  profile = none;
  renew_before_days = 30;
  rotate_key = true;
  solver = none;
  solvers = some (codes "dns" ∷ codes "web" ∷ []);
  dane = mail_dane ∷ [];
  hooks = codes "reload" ∷ [];
  inline_hooks = command (codes "/bin/true" ∷ []) ∷ [];
}

abbrev pub sample : Config
sample = record {
  acme = record {
    directory_url = codes "https://acme.example/directory";
    account_key_credential = none;
    account_key_path = some (codes "/etc/certforge/account.key");
    contact = codes "mailto:admin@example.com" ∷ [];
  };
  default_solver = some (codes "tls");
  dns = (codes "main", client) ∷ [];
  solver =
      (codes "dns", dns01 (codes "main") 5)
      ∷ (codes "web", http01 (some (one (codes "[::]:80"))) none)
      ∷ (codes "tls", tls_alpn01 (one (codes "[::]:443")))
      ∷ [];
  hook = record { name = codes "reload"; hook = systemd_reload (codes "postfix.service") } ∷ [];
  certificates = mail ∷ [];
}

-- a recogniser that knows one address
abbrev pub is_ip : Text → Bool
is_ip = same (codes "10.0.0.1")

pub sample_passes : validate is_ip sample ≡ ok tt
unfolding validate challenge_name canonical solver_for_domain same get find_zone all_zones
    parse_mode strip_prefix trim_dots ends_with
sample_passes = refl

validate_iff_example : (validate is_ip sample ≡ ok tt) ↔ IsValid is_ip sample
validate_iff_example = validate_iff is_ip sample

swapped_fails :
    validate is_ip (record sample {
      certificates = record mail { solvers = some (codes "web" ∷ codes "dns" ∷ []) } ∷ [];
    })
    ≡ err (
        Error.config "certificate {}: DNS-01 solver cannot be used with IP address {domain}"
          (codes "mail" ∷ codes "10.0.0.1" ∷ []))
unfolding validate challenge_name canonical solver_for_domain same get find_zone all_zones
    parse_mode strip_prefix trim_dots ends_with
swapped_fails = refl

-- The longer of two zones that hold the name wins, whatever the case and the trailing dot.
found_zone :
    find_zone client (codes "_25._tcp.MX.mail.Example.com") ≡ some (codes "mail.example.com.")
unfolding find_zone canonical same all_zones trim_dots ends_with
found_zone = refl

no_zone : find_zone client (codes "example.net") ≡ none
unfolding find_zone canonical same all_zones trim_dots ends_with
no_zone = refl

find_zone-some_example :
    In (codes "mail.example.com.") (all_zones client)
    × LiesIn (codes "_25._tcp.MX.mail.Example.com") (codes "mail.example.com.")
    × ((other : Text)
        → In other (all_zones client)
        → LiesIn (codes "_25._tcp.MX.mail.Example.com") other
        → length other ≤ length (codes "mail.example.com."))
find_zone-some_example = find_zone-some client (codes "_25._tcp.MX.mail.Example.com") found_zone

find_zone-none_example :
    (find_zone client (codes "example.net") ≡ none)
    ↔ ((zone : Text) → In zone (all_zones client) → ¬ LiesIn (codes "example.net") zone)
find_zone-none_example = find_zone-none client (codes "example.net")

parse_mode_iff_example : (parse_mode (codes "+0640") ≡ ok 416) ↔ Denotes (codes "+0640") 416
parse_mode_iff_example = parse_mode_iff (codes "+0640") 416

parse_mode_tests :
    (parse_mode (codes "+0640") ≡ ok 416)
    × (is_ok (parse_mode (codes "")) ≡ false)
    × (is_ok (parse_mode (codes "+")) ≡ false)
    × (is_ok (parse_mode (codes "0689")) ≡ false)
    × (is_ok (parse_mode (codes "40000000000")) ≡ false)
unfolding parse_mode
parse_mode_tests = (refl, refl, refl, refl, refl)
