-- ===== src/Safety/Dns.antt =====
-- DNS updates and the publication of TLSA records (src/dns, src/dane.rs), and where they may panic.
use certforge.Base.{Text, Bytes, length, List, [], ◌∷◌, ◌≡◌, ◌≢◌, refl, subst}
use certforge.Error.{ok, eq_of_ok, >>=-eq-ok}
use certforge.Config.{
  DnsClientConfig, DnsProtocol, tcp, udp, SocketAddr, DaneConfig, DaneSelector, spki, KeyType,
  ecdsa_p256, ecdsa_p384, rsa2048, rsa4096, Config, ok_or, dns_client,
}
use certforge.Config.Zones.{find_zone}
use certforge.Crates.{Crates}
use certforge.Certs.{CertInfo}
use certforge.Tlsa.{TlsaRecord, from_certificate, from_spki}
use certforge.Keys.Pair.{CertKeyPair, check_key, from_pem_or_der, spki_of, spki_der}
use certforge.Dane.Records.{
  check_selector, first_record, replicate, compute_tlsa_records, compute_tlsa_from_key,
  resolve_zone_for_name, zone_and_name,
}
use certforge.Dane.{publish_at, publish_tlsa, add_at, add_tlsa}
use certforge.Dns.Tsig.{load_tsig_signer}
use certforge.Dns.Update.{
  check_update_response, check_reply, check_replaced, first_address, update, connect_tcp,
  connect_by, connect_updater, add_tlsa_record, replace_tlsa_records,
}
use certforge.Exec.Panics.{
  IsSafe, IsSafe-ok_or, IsSafe-ok, IsSafe-err, IsSafe-bind, NeverPanics, NeverPanics-lift,
  NeverPanics-bind, NeverPanics-for_each, panic_rules,
}
use certforge.World.{
  Event, Env, Reply, no_response, failed, response, ResponseCode, no_error, refused, not_auth,
  nx_rrset, yx_rrset, not_zone, other_code,
}
use certforge.Safety.Files.{load_secret-NeverPanics}

check_update_response-NeverPanics :
    (operation : Text) (code : ResponseCode) → NeverPanics (check_update_response operation code)
unfolding check_update_response
check_update_response-NeverPanics operation no_error = search panic_rules
check_update_response-NeverPanics operation refused = search panic_rules
check_update_response-NeverPanics operation not_auth = search panic_rules
check_update_response-NeverPanics operation nx_rrset = search panic_rules
check_update_response-NeverPanics operation yx_rrset = search panic_rules
check_update_response-NeverPanics operation not_zone = search panic_rules
check_update_response-NeverPanics operation other_code = search panic_rules

check_reply-NeverPanics :
    (operation : Text) (reply : Reply) → NeverPanics (check_reply operation reply)
unfolding check_reply
check_reply-NeverPanics operation no_response = search panic_rules
check_reply-NeverPanics operation failed = search panic_rules
check_reply-NeverPanics operation (response code) = search check_update_response-NeverPanics

check_replaced-NeverPanics : (reply : Reply) → NeverPanics (check_replaced reply)
unfolding check_replaced
check_replaced-NeverPanics no_response = search panic_rules
check_replaced-NeverPanics failed = search check_reply-NeverPanics
check_replaced-NeverPanics (response code) = search check_reply-NeverPanics

first_address-NeverPanics :
    (server : Text) (addrs : List SocketAddr) → NeverPanics (first_address server addrs)
unfolding first_address
first_address-NeverPanics server [] = search panic_rules
first_address-NeverPanics server (addr ∷ _) = search panic_rules

zone_and_name-IsSafe :
    (crates : Crates) (config : DnsClientConfig) (name : Text)
    → IsSafe (zone_and_name crates config name)
unfolding zone_and_name resolve_zone_for_name
zone_and_name-IsSafe crates config name =
    IsSafe-bind (ok_or (find_zone config name) _) _ (IsSafe-ok_or _ _) λ zone_str p.
      IsSafe-bind (ok_or (crates.name_from_ascii zone_str) _) _ (IsSafe-ok_or _ _) λ zone q.
        IsSafe-bind (ok_or (crates.name_from_ascii name) _) _ (IsSafe-ok_or _ _) λ at r. IsSafe-ok _

module _ (env : Env) where
  pub update-NeverPanics : (e : Event) (operation : Text) → NeverPanics (update env e operation)
  unfolding update
  update-NeverPanics e operation = search (panic_rules, check_reply-NeverPanics)

  connect_by-NeverPanics :
      (protocol : DnsProtocol) (addr : SocketAddr) → NeverPanics (connect_by env protocol addr)
  unfolding connect_by connect_tcp
  connect_by-NeverPanics tcp addr = search panic_rules
  connect_by-NeverPanics udp addr = search panic_rules

  pub connect_updater-NeverPanics :
      (config : DnsClientConfig) → NeverPanics (connect_updater env config)
  unfolding connect_updater
  connect_updater-NeverPanics config =
      search (panic_rules, first_address-NeverPanics, connect_by-NeverPanics)

  pub load_tsig_signer-NeverPanics :
      (crates : Crates) (config : DnsClientConfig)
      → NeverPanics (load_tsig_signer crates env config)
  unfolding load_tsig_signer
  load_tsig_signer-NeverPanics crates config =
      search (panic_rules, load_secret-NeverPanics) depth 12

  module _ (crates : Crates) (config : DnsClientConfig) (dane : DaneConfig) where
    publish_at-NeverPanics :
        (tlsa : TlsaRecord) (name : Text)
        → NeverPanics (publish_at crates env config dane tlsa name)
    unfolding publish_at replace_tlsa_records
    publish_at-NeverPanics tlsa name =
        search (panic_rules, zone_and_name-IsSafe, check_replaced-NeverPanics) depth 12

    add_at-NeverPanics :
        (tlsa : TlsaRecord) (name : Text) → NeverPanics (add_at crates env config dane tlsa name)
    unfolding add_at add_tlsa_record
    add_at-NeverPanics tlsa name = search (panic_rules, zone_and_name-IsSafe, update-NeverPanics)

    pub publish_tlsa-NeverPanics :
        (records : List TlsaRecord)
        → IsSafe (first_record records)
        → NeverPanics (publish_tlsa crates env config dane records)
    unfolding publish_tlsa
    publish_tlsa-NeverPanics records safe =
        NeverPanics-bind _ _ (NeverPanics-lift _ safe)
          λ tlsa. NeverPanics-for_each _ dane.names (publish_at-NeverPanics tlsa)

    pub add_tlsa-NeverPanics :
        (tlsa : TlsaRecord) → NeverPanics (add_tlsa crates env config dane tlsa)
    unfolding add_tlsa
    add_tlsa-NeverPanics tlsa = NeverPanics-for_each _ dane.names (add_at-NeverPanics tlsa)

first_record-replicate :
    (names : List Text) (tlsa : TlsaRecord)
    → names ≢ []
    → IsSafe (first_record (replicate (length names) tlsa))
unfolding first_record replicate
first_record-replicate [] tlsa n = absurd (n refl)
first_record-replicate (x ∷ names) tlsa n = IsSafe-ok tlsa

pub dns_client-IsSafe : (c : Config) (name : Text) → IsSafe (dns_client c name)
unfolding dns_client
dns_client-IsSafe c name = IsSafe-ok_or _ _

module _ (crates : Crates) (dane : DaneConfig) where
  -- there is a record where there is a name
  pub first_record-compute_tlsa_records :
      (cert : CertInfo) (records : List TlsaRecord)
      → dane.names ≢ []
      → compute_tlsa_records crates cert dane ≡ ok records
      → IsSafe (first_record records)
  unfolding compute_tlsa_records from_certificate
  first_record-compute_tlsa_records cert records n q =
      subst (λ rs. IsSafe (first_record rs)) (eq_of_ok _ _ q)
        (first_record-replicate dane.names _ n)

  pub compute_tlsa_records-IsSafe :
      (cert : CertInfo) → IsSafe (compute_tlsa_records crates cert dane)
  unfolding compute_tlsa_records from_certificate
  compute_tlsa_records-IsSafe cert = IsSafe-ok _

  pub first_record-compute_tlsa_from_key :
      (pair : CertKeyPair) (records : List TlsaRecord)
      → dane.names ≢ []
      → compute_tlsa_from_key crates pair dane ≡ ok records
      → IsSafe (first_record records)
  unfolding compute_tlsa_from_key from_spki
  first_record-compute_tlsa_from_key pair records n q =
      let (_, _, a) = >>=-eq-ok (check_selector dane.selector) _ q in
      let (_, _, b) = >>=-eq-ok (spki_der crates pair) _ a in
      subst (λ rs. IsSafe (first_record rs)) (eq_of_ok _ _ b)
        (first_record-replicate dane.names _ n)

  spki_of-IsSafe : (key_type : KeyType) (der : Bytes) → IsSafe (spki_of crates key_type der)
  unfolding spki_of
  spki_of-IsSafe ecdsa_p256 der =
      IsSafe-bind (ok_or (crates.ec_public_key ecdsa_p256 der) _) _ (IsSafe-ok_or _ _)
        λ k p. IsSafe-ok _
  spki_of-IsSafe ecdsa_p384 der =
      IsSafe-bind (ok_or (crates.ec_public_key ecdsa_p384 der) _) _ (IsSafe-ok_or _ _)
        λ k p. IsSafe-ok _
  spki_of-IsSafe rsa2048 der = IsSafe-err _
  spki_of-IsSafe rsa4096 der = IsSafe-err _

  check_selector-IsSafe : (selector : DaneSelector) → IsSafe (check_selector selector)
  unfolding check_selector
  check_selector-IsSafe spki = IsSafe-ok tt
  check_selector-IsSafe DaneSelector.full = IsSafe-err _

  pub compute_tlsa_from_key-IsSafe :
      (pair : CertKeyPair) → IsSafe (compute_tlsa_from_key crates pair dane)
  unfolding compute_tlsa_from_key from_spki spki_der
  compute_tlsa_from_key-IsSafe pair =
      IsSafe-bind (check_selector dane.selector) _ (check_selector-IsSafe dane.selector) λ _ p.
        IsSafe-bind (spki_of crates pair.key_type pair.pkcs8_der) _
          (spki_of-IsSafe pair.key_type pair.pkcs8_der) λ bytes q. IsSafe-ok _

check_key-IsSafe :
    (crates : Crates) (key_type : KeyType) (der : Bytes) → IsSafe (check_key crates key_type der)
unfolding check_key
check_key-IsSafe crates ecdsa_p256 der = IsSafe-ok_or _ _
check_key-IsSafe crates ecdsa_p384 der = IsSafe-ok_or _ _
check_key-IsSafe crates rsa2048 der = IsSafe-err _
check_key-IsSafe crates rsa4096 der = IsSafe-err _

pub from_pem_or_der-IsSafe :
    (crates : Crates) (content : Bytes) (key_type : KeyType)
    → IsSafe (from_pem_or_der crates content key_type)
unfolding from_pem_or_der
from_pem_or_der-IsSafe crates content key_type =
    IsSafe-bind (check_key crates key_type _) _ (check_key-IsSafe crates key_type _)
      λ k p. IsSafe-ok _
