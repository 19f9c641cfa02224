-- ===== src/Tests/Keys.antt =====
-- Secrets, keys, their TLSA records and the state file, in a toy world.
use certforge.Base.{
  Bytes, codes, same, All, length, ℕ, ◌<◌, ◌*◌, arith, ◌≡◌, refl, ◌↔◌, eq_of_some, true, some, [],
  ◌∷◌, trim_dots, ends_with, strip_prefix,
}
use certforge.Base.Int.{pos, ◌+ℤ◌, ◌≤ℤ◌}
use certforge.Error.{ok}
use certforge.Config.{KeyType, ecdsa_p256}
use certforge.Config.Zones.{find_zone, all_zones, canonical}
use certforge.Certs.{CertInfo}
use certforge.Tlsa.{TlsaRecord}
use certforge.Keys.Der.{wrap_ec_spki, ec_p256_oid}
use certforge.Keys.Der.Reader.{read_spki}
use certforge.Keys.Pair.{
  CertKeyPair, check_key, unwrap_pem, from_pem_or_der, to_pem, spki_of, spki_der,
}
use certforge.Keys.RoundTrip.{curve_of, from_pem_or_der-to_pem, read_spki-spki_der}
use certforge.Credentials.{load_secret, Holds, requested, load_secret_iff}
use certforge.State.{PendingRotation, ttl_expired, ttl_expired_iff, load, save}
use certforge.State.Files.{load-save}
use certforge.Dane.Records.{
  compute_tlsa_records, compute_tlsa_from_key, resolve_zone_for_name, zone_and_name, first_record,
}
use certforge.Dane.{publish_at, publish_tlsa}
use certforge.Dane.Publication.{
  IsAccepted, compute_tlsa_from_key-compute_tlsa_records, publish_tlsa-All,
}
use certforge.Dns.Rdata.{
  Numbers, CertUsage, pkix_ta, pkix_ee, dane_ta, dane_ee, Selector, full, spki, Matching, raw,
  sha256, sha512, IsStandard, tlsa_to_rdata, rdata_to_tlsa, rdata_to_tlsa-tlsa_to_rdata,
}
use certforge.Dns.Update.{check_replaced, check_reply, check_update_response, replace_tlsa_records}
use certforge.Exec.{for_each, ◌>>=◌}
use certforge.World.{attempt, observe}
use certforge.Tests.{client, mail_dane}
use certforge.Tests.Crates.{toy_crates, toy_env, file_env, file_env-KeepsFiles, rotating, toy_json}

load_secret_iff_example :
    (((load_secret toy_env (some (codes "/a.cred")) (some (codes "/a.key")) []).0
        ≡ ok (codes "output"))
      ↔ Holds toy_env (some (codes "/a.cred")) (some (codes "/a.key")) [] (codes "output"))
    × ((load_secret toy_env (some (codes "/a.cred")) (some (codes "/a.key")) []).1
        ≡ requested toy_env (some (codes "/a.cred")) (some (codes "/a.key")) [])
load_secret_iff_example =
    load_secret_iff toy_env (some (codes "/a.cred")) (some (codes "/a.key")) [] (codes "output")

abbrev waiting : PendingRotation
waiting = record { pending_key_path = codes "/k"; published_at = pos 0; old_ttl = 300 }

ttl_expired_iff_example :
    (ttl_expired waiting (pos 299999999999) ≡ true)
    ↔ (pos 0 +ℤ pos (300 * 1000000000) ≤ℤ pos 299999999999)
ttl_expired_iff_example = ttl_expired_iff waiting (pos 299999999999) (omega arith)

load-save_example :
    (load file_env toy_json
      (codes "/var/lib/certforge")
      (save file_env toy_json rotating (codes "/var/lib/certforge") []).1).0
    ≡ ok rotating
unfolding save attempt ◌>>=◌
load-save_example =
    load-save (λ content. true) file_env toy_json file_env-KeepsFiles rotating
      (codes "/var/lib/certforge") [] (λ content e. refl) (λ content e. refl) refl

abbrev pub of_usage : CertUsage → ℕ
of_usage pkix_ta = 0
of_usage pkix_ee = 1
of_usage dane_ta = 2
of_usage dane_ee = 3
of_usage (CertUsage.unassigned n) = n

abbrev pub of_selector : Selector → ℕ
of_selector full = 0
of_selector spki = 1
of_selector (Selector.unassigned n) = n

abbrev pub of_matching : Matching → ℕ
of_matching raw = 0
of_matching sha256 = 1
of_matching sha512 = 2
of_matching (Matching.unassigned n) = n

abbrev pub rfc_6698 : Numbers
rfc_6698 = record { of_usage = of_usage; of_selector = of_selector; of_matching = of_matching }

rfc_6698-IsStandard : IsStandard rfc_6698
rfc_6698-IsStandard = record {
  usages = (refl, refl, refl, refl);
  other_usages = λ n. refl;
  selectors = (refl, refl);
  other_selectors = λ n. refl;
  matchings = (refl, refl, refl);
  other_matchings = λ n. refl;
}

abbrev odd_record : TlsaRecord
odd_record = record { usage = 255; selector = 1; matching_type = 2; association_data = 7 ∷ [] }

rdata_to_tlsa-tlsa_to_rdata_example : rdata_to_tlsa rfc_6698 (tlsa_to_rdata odd_record) ≡ odd_record
rdata_to_tlsa-tlsa_to_rdata_example =
    rdata_to_tlsa-tlsa_to_rdata rfc_6698 rfc_6698-IsStandard odd_record

abbrev pair : CertKeyPair
pair = record { key_type = ecdsa_p256; pkcs8_der = 1 ∷ 2 ∷ 3 ∷ [] }

pair_read : from_pem_or_der toy_crates (1 ∷ 2 ∷ 3 ∷ []) ecdsa_p256 ≡ ok pair
unfolding from_pem_or_der check_key unwrap_pem
pair_read = refl

from_pem_or_der-to_pem_example :
    from_pem_or_der toy_crates (to_pem toy_crates pair) ecdsa_p256 ≡ ok pair
from_pem_or_der-to_pem_example =
    from_pem_or_der-to_pem toy_crates (1 ∷ 2 ∷ 3 ∷ []) ecdsa_p256 pair (λ der. refl) pair_read

toy_keys_short : (k : KeyType) (der a : Bytes) → some (4 ∷ 1 ∷ []) ≡ some a → length a < 1000
toy_keys_short k der a e = rw (← eq_of_some _ _ e) (omega arith)

read_spki-spki_der_example :
    (spki_bytes : Bytes) × (public_key : Bytes) × (spki_der toy_crates pair ≡ ok spki_bytes)
    × (toy_crates.ec_public_key ecdsa_p256 pair.pkcs8_der ≡ some public_key)
    × (read_spki spki_bytes ≡ some (curve_of ecdsa_p256, public_key))
read_spki-spki_der_example =
    read_spki-spki_der toy_crates (1 ∷ 2 ∷ 3 ∷ []) ecdsa_p256 pair toy_keys_short pair_read

abbrev issued_cert : CertInfo
issued_cert = record {
  leaf_der = 9 ∷ [];
  not_after = pos 0;
  san = [];
  spki_der = wrap_ec_spki (4 ∷ 1 ∷ []) ec_p256_oid;
}

compute_tlsa_from_key-compute_tlsa_records_example :
    compute_tlsa_from_key toy_crates pair mail_dane
    ≡ compute_tlsa_records toy_crates issued_cert mail_dane
unfolding spki_der spki_of
compute_tlsa_from_key-compute_tlsa_records_example =
    compute_tlsa_from_key-compute_tlsa_records toy_crates pair issued_cert mail_dane refl refl

published : (publish_tlsa toy_crates toy_env client mail_dane (odd_record ∷ []) []).0 ≡ ok tt
unfolding publish_tlsa publish_at first_record zone_and_name resolve_zone_for_name find_zone
    canonical same all_zones trim_dots ends_with strip_prefix replace_tlsa_records check_replaced
    check_reply check_update_response for_each ◌>>=◌ observe
published = refl

publish_tlsa-All_example :
    All (IsAccepted toy_crates toy_env client mail_dane odd_record) mail_dane.names
publish_tlsa-All_example =
    publish_tlsa-All toy_crates toy_env client mail_dane odd_record [] [] published
