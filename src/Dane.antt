-- ===== src/Dane.antt =====
-- src/dane.rs: the TLSA records of a certificate or a key, and their publication.
pub mod Records
pub mod Publication
use certforge.Base.{Text, List, [], ◌∷◌}
use certforge.Config.{DnsClientConfig, DaneConfig}
use certforge.Crates.{Crates}
use certforge.Tlsa.{TlsaRecord}
use certforge.Dane.Records.{first_record, zone_and_name}
use certforge.Dns.Update.{add_tlsa_record, replace_tlsa_records}
use certforge.Exec.{lift, for_each, ◌>>=◌, ◌>>◌}
use certforge.World.{Io, Env}

module _ (crates : Crates) (env : Env) where
  unfoldable pub publish_at : DnsClientConfig → DaneConfig → TlsaRecord → Text → Io (Unit {0})
  publish_at dns_config dane tlsa name_str =
      lift (zone_and_name crates dns_config name_str) >>= λ at.
      replace_tlsa_records env at.0 at.1 (tlsa ∷ []) dane.ttl

  unfoldable pub publish_tlsa : DnsClientConfig → DaneConfig → List TlsaRecord → Io (Unit {0})
  publish_tlsa dns_config dane records =
      lift (first_record records) >>= λ tlsa. for_each (publish_at dns_config dane tlsa) dane.names

  unfoldable pub add_at : DnsClientConfig → DaneConfig → TlsaRecord → Text → Io (Unit {0})
  add_at dns_config dane tlsa name_str = lift (zone_and_name crates dns_config name_str) >>= λ at.
      add_tlsa_record env at.0 at.1 tlsa dane.ttl

  unfoldable pub add_tlsa : DnsClientConfig → DaneConfig → TlsaRecord → Io (Unit {0})
  add_tlsa dns_config dane tlsa = for_each (add_at dns_config dane tlsa) dane.names
