-- ===== src/Solver/Dns01.antt =====
-- src/solver/dns01.rs: challenges as TXT records.
use certforge.Base.{Text, codes, strip_prefix, ℕ, Option, none, some, [], ◌∷◌, ◌++◌}
use certforge.Error.{dns_update, Result}
use certforge.Config.{DnsClientConfig, ok_or}
use certforge.Config.Zones.{find_zone, all_zones}
use certforge.Crates.{Crates}
use certforge.Acme.{ChallengeInfo}
use certforge.Dns.Tsig.{load_tsig_signer}
use certforge.Dns.Update.{connect_updater, add_txt_record, delete_txt_record}
use certforge.Exec.{lift, ◌>>=◌, ◌>>◌}
use certforge.World.{Io, Env}

pub record Dns01Solver : Type 0 where
  pub dns_config : DnsClientConfig
  -- in seconds
  pub delay : ℕ

abbrev unwrap_or : Option Text → Text → Text
unwrap_or none d = d
unwrap_or (some t) d = t

-- without the prefix of a wildcard name
unfoldable pub base_domain : Text → Text
base_domain identifier = unwrap_or (strip_prefix (codes "*.") identifier) identifier

unfoldable pub txt_name : ChallengeInfo → Text
txt_name challenge = codes "_acme-challenge." ++ base_domain challenge.identifier

unfoldable pub resolve_zone : Dns01Solver → Text → Result Text
resolve_zone solver name = ok_or (find_zone solver.dns_config name) (
    dns_update "no matching zone for '{txt_name}' in zones {:?}"
      (name ∷ all_zones solver.dns_config))

module _ (crates : Crates) (env : Env) (solver : Dns01Solver) where
  unfoldable pub present : ChallengeInfo → Io (Unit {0})
  present challenge = do
    zone_str ← lift (resolve_zone solver (txt_name challenge))
    _ ← load_tsig_signer crates env solver.dns_config
    connect_updater env solver.dns_config
    name ← lift (
        ok_or (crates.name_from_ascii (txt_name challenge)) (dns_update "invalid TXT name: {e}" []))
    zone ← lift (ok_or (crates.name_from_ascii zone_str) (dns_update "invalid zone: {e}" []))
    add_txt_record env zone name challenge.dns_value 60

  unfoldable pub cleanup : ChallengeInfo → Io (Unit {0})
  cleanup challenge = do
    zone_str ← lift (resolve_zone solver (txt_name challenge))
    _ ← load_tsig_signer crates env solver.dns_config
    connect_updater env solver.dns_config
    name ← lift (
        ok_or (crates.name_from_ascii (txt_name challenge)) (dns_update "invalid TXT name: {e}" []))
    zone ← lift (ok_or (crates.name_from_ascii zone_str) (dns_update "invalid zone: {e}" []))
    delete_txt_record env zone name challenge.dns_value

unfoldable pub propagation_delay : Dns01Solver → Option ℕ
propagation_delay solver = some solver.delay
