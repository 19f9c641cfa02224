-- ===== src/Dane/Records.antt =====
-- src/dane.rs: the records of a certificate or a key, and the zone of a name.
use certforge.Base.{Text, ℕ, zero, suc, length, List, [], ◌∷◌}
use certforge.Error.{Result, ok, err, panic, certificate, dns_update, ◌>>=◌}
use certforge.Config.{DnsClientConfig, DaneConfig, DaneSelector, spki, ok_or}
use certforge.Config.Zones.{find_zone, all_zones}
use certforge.Crates.{Crates}
use certforge.Certs.{CertInfo}
use certforge.Tlsa.{TlsaRecord, from_certificate, from_spki}
use certforge.Keys.Pair.{CertKeyPair, spki_der}

-- `vec![record; n]`
unfoldable pub replicate : ℕ → TlsaRecord → List TlsaRecord
replicate zero record_of = []
replicate (suc n) record_of = record_of ∷ replicate n record_of

unfoldable pub check_selector : DaneSelector → Result (Unit {0})
check_selector spki = ok tt
check_selector DaneSelector.full =
    err (certificate "DANE pre-publication requires SPKI selector" [])

-- `&records[0]`
unfoldable pub first_record : List TlsaRecord → Result TlsaRecord
first_record [] = panic
first_record (r ∷ _) = ok r

module _ (crates : Crates) where
  unfoldable pub compute_tlsa_records : CertInfo → DaneConfig → Result (List TlsaRecord)
  compute_tlsa_records cert dane = do
    tlsa ←
        from_certificate crates cert.leaf_der cert.spki_der dane.usage dane.selector dane.matching
    ok (replicate (length dane.names) tlsa)

  unfoldable pub compute_tlsa_from_key : CertKeyPair → DaneConfig → Result (List TlsaRecord)
  compute_tlsa_from_key key dane = do
    _ ← check_selector dane.selector
    spki_bytes ← spki_der crates key
    tlsa ← from_spki crates spki_bytes dane.usage dane.matching
    ok (replicate (length dane.names) tlsa)

  unfoldable pub resolve_zone_for_name : DnsClientConfig → Text → Result Text
  resolve_zone_for_name dns_config name =
      ok_or (find_zone dns_config name)
        (dns_update "no matching zone for '{name}' in zones {:?}" (name ∷ all_zones dns_config))

  -- zone and name as the client takes them
  unfoldable pub zone_and_name : DnsClientConfig → Text → Result (Text × Text)
  zone_and_name dns_config name_str = do
    zone_str ← resolve_zone_for_name dns_config name_str
    zone ←
        ok_or (crates.name_from_ascii zone_str)
          (dns_update "invalid zone '{zone_str}': {e}" (zone_str ∷ []))
    name ←
        ok_or (crates.name_from_ascii name_str)
          (dns_update "invalid TLSA name {name_str}: {e}" (name_str ∷ []))
    ok (zone, name)
