-- ===== src/Dane/Publication.antt =====
-- What is published, and where.
use certforge.Base.{Text, All, ℕ, List, [], ◌∷◌, ◌≡◌, refl}
use certforge.Error.{Result, ok, err, panic}
use certforge.Config.{DnsClientConfig, DaneConfig, spki}
use certforge.Crates.{Crates}
use certforge.Certs.{CertInfo}
use certforge.Tlsa.{TlsaRecord, from_certificate, from_spki}
use certforge.Keys.Pair.{CertKeyPair, spki_der}
use certforge.Dane.Records.{
  check_selector, compute_tlsa_records, compute_tlsa_from_key, first_record, zone_and_name,
}
use certforge.Dane.{publish_at, publish_tlsa}
use certforge.Dns.Rdata.{tlsa_to_rdata}
use certforge.Dns.Update.{check_replaced, check_reply, check_update_response, replace_tlsa_records}
use certforge.Exec.{lift, ◌>>=◌}
use certforge.Exec.Logs.{raise-ne-ok, for_each-ok}
use certforge.World.{
  replace_tlsa, Log, Env, Reply, no_response, failed, response, no_error, refused, not_auth,
  nx_rrset, yx_rrset, not_zone, other_code, observe,
}

-- The records published for a key before its certificate is there are those that will be published
-- for the certificate, if that has the key's SubjectPublicKeyInfo.
pub compute_tlsa_from_key-compute_tlsa_records :
    (crates : Crates) (key : CertKeyPair) (cert : CertInfo) (dane : DaneConfig)
    → dane.selector ≡ spki
    → spki_der crates key ≡ ok cert.spki_der
    → compute_tlsa_from_key crates key dane ≡ compute_tlsa_records crates cert dane
unfolding compute_tlsa_from_key compute_tlsa_records check_selector from_certificate from_spki
compute_tlsa_from_key-compute_tlsa_records crates key cert dane s k = rw s (rw k refl)

module _ (crates : Crates) (env : Env) where
  -- The server has accepted the record at the name, in the zone found for it.
  abbrev pub IsAccepted : DnsClientConfig → DaneConfig → TlsaRecord → Text → Type 0
  IsAccepted dns_config dane tlsa name_str =
      (zone : Text) × (name : Text) × (zone_and_name crates dns_config name_str ≡ ok (zone, name))
      × (h : Log) × (env.reply h (replace_tlsa zone name (tlsa_to_rdata tlsa ∷ []) dane.ttl)
          ≡ response no_error)

  check_reply-ok :
      (operation : Text) (reply : Reply) (h : Log)
      → (check_reply operation reply h).0 ≡ ok tt
      → reply ≡ response no_error
  unfolding check_reply check_update_response ◌>>=◌
  check_reply-ok operation no_response h e = cc
  check_reply-ok operation failed h e = cc
  check_reply-ok operation (response no_error) h e = refl
  check_reply-ok operation (response refused) h e = cc
  check_reply-ok operation (response not_auth) h e = cc
  check_reply-ok operation (response nx_rrset) h e = cc
  check_reply-ok operation (response yx_rrset) h e = cc
  check_reply-ok operation (response not_zone) h e = cc
  check_reply-ok operation (response other_code) h e = cc

  check_replaced-ok :
      (reply : Reply) (h : Log) → (check_replaced reply h).0 ≡ ok tt → reply ≡ response no_error
  unfolding check_replaced
  check_replaced-ok no_response h e = absurd (raise-ne-ok _ h e)
  check_replaced-ok failed h e = check_reply-ok _ _ h e
  check_replaced-ok (response code) h e = check_reply-ok _ _ h e

  replace-ok :
      (at : Result (Text × Text)) (ttl : ℕ) (tlsa : TlsaRecord) (h : Log)
      → ((lift at >>= λ p. replace_tlsa_records env p.0 p.1 (tlsa ∷ []) ttl) h).0 ≡ ok tt
      → (zone : Text) × (name : Text) × (at ≡ ok (zone, name))
        × (t : Log) × (env.reply t (replace_tlsa zone name (tlsa_to_rdata tlsa ∷ []) ttl)
            ≡ response no_error)
  unfolding replace_tlsa_records observe ◌>>=◌
  replace-ok (ok (zone, name)) ttl tlsa h e = (zone, name, refl, h, check_replaced-ok _ _ e)
  replace-ok (err x) ttl tlsa h e = absurd cc
  replace-ok panic ttl tlsa h e = absurd cc

  -- If publication ends well, the server has accepted the first record at every name of the entry, in
  -- the zone found for the name.
  pub publish_tlsa-All :
      (dns_config : DnsClientConfig) (dane : DaneConfig) (tlsa : TlsaRecord)
      (more : List TlsaRecord) (h : Log)
      → (publish_tlsa crates env dns_config dane (tlsa ∷ more) h).0 ≡ ok tt
      → All (IsAccepted dns_config dane tlsa) dane.names
  unfolding publish_tlsa first_record publish_at ◌>>=◌
  publish_tlsa-All dns_config dane tlsa more h e =
      for_each-ok (publish_at crates env dns_config dane tlsa) (IsAccepted dns_config dane tlsa)
        dane.names h
        (λ name t q. replace-ok (zone_and_name crates dns_config name) dane.ttl tlsa t q) e
