-- ===== src/Commands/Status.antt =====
-- src/main.rs, `print_status`, with the texts that src/config.rs gives to its enums.
use certforge.Base.{
  String, Text, codes, is_empty, not, ℕ, ◌+◌, Option, List, [], ◌∷◌, ◌++◌, if◌then◌else◌,
}
use certforge.Error.{Result, ok, err, panic}
use certforge.Config.{
  KeyType, ecdsa_p256, ecdsa_p384, rsa2048, rsa4096, DaneUsage, pkix_ta, pkix_ee, ta, ee,
  DaneSelector, spki, DaneMatching, sha256, sha512, DaneConfig, CertificateConfig, Config,
}
use certforge.Crates.{Crates}
use certforge.Certs.{CertInfo, days_until_expiry, expires_within_days}
use certforge.Certs.Load.{load_cert}
use certforge.Exec.{pure, lift, capture, when, ◌>>=◌, ◌>>◌}
use certforge.World.{Shown, text, number, days, time, flag, print, read_clock, Io, Env, observe}
use certforge.Renew.Run.{is_chosen}

unfoldable pub key_type_text : KeyType → Text
key_type_text ecdsa_p256 = codes "ecdsa-p256"
key_type_text ecdsa_p384 = codes "ecdsa-p384"
key_type_text rsa2048 = codes "rsa-2048"
key_type_text rsa4096 = codes "rsa-4096"

unfoldable pub usage_text : DaneUsage → Text
usage_text pkix_ta = codes "pkix-ta"
usage_text pkix_ee = codes "pkix-ee"
usage_text ta = codes "ta"
usage_text ee = codes "ee"

unfoldable pub selector_text : DaneSelector → Text
selector_text DaneSelector.full = codes "full"
selector_text spki = codes "spki"

unfoldable pub matching_text : DaneMatching → Text
matching_text DaneMatching.full = codes "full"
matching_text sha256 = codes "sha256"
matching_text sha512 = codes "sha512"

-- `.join(", ")`
unfoldable pub comma_list : List Text → Text
comma_list [] = []
comma_list (t ∷ []) = t
comma_list (t ∷ u ∷ ts) = t ++ codes ", " ++ comma_list (u ∷ ts)

-- `println!`
abbrev pub println : String → List Shown → Io (Unit {0})
println format shown = observe (print format shown) (λ _. tt)

-- the DANE blocks, counted from `i`
unfoldable pub print_dane : ℕ → List DaneConfig → Io (Unit {0})
print_dane i [] = pure tt
print_dane i (dane ∷ entries) = do
  println "  DANE block {} (dns={}): {}/{}/{}" (
      number i
      ∷ text dane.dns
      ∷ text (usage_text dane.usage)
      ∷ text (selector_text dane.selector)
      ∷ text (matching_text dane.matching)
      ∷ [])
  println "    Names: {}" (text (comma_list dane.names) ∷ [])
  println "    TTL: {}, Pre-publish: {}" (number dane.ttl ∷ flag dane.pre_publish ∷ [])
  print_dane (i + 1) entries

module _ (crates : Crates) (env : Env) where
  unfoldable pub print_expiry : CertificateConfig → Result CertInfo → Io (Unit {0})
  print_expiry cert (ok info) = do
    now ← observe read_clock env.clock
    println "  Expires: {} ({days} days)"
        (time info.not_after ∷ days (days_until_expiry info now) ∷ [])
    later ← observe read_clock env.clock
    println
        (if expires_within_days info later cert.renew_before_days
          then "  Status: NEEDS RENEWAL"
          else "  Status: OK")
        []
    when (not (is_empty info.san)) (println "  SANs: {}" (text (comma_list info.san) ∷ []))
  print_expiry cert (err e) = println "  Status: NOT ISSUED" []
  print_expiry cert panic = lift panic

  unfoldable pub print_certificate : CertificateConfig → Io (Unit {0})
  print_certificate cert = do
    println "Certificate: {}" (text cert.name ∷ [])
    println "  Domains: {}" (text (comma_list cert.domains) ∷ [])
    println "  Key type: {}" (text (key_type_text cert.key_type) ∷ [])
    println "  Rotate key: {}" (flag cert.rotate_key ∷ [])
    println "  Cert path: {}" (text cert.cert_path ∷ [])
    loaded ← capture (load_cert crates env cert.cert_path)
    print_expiry cert loaded
    print_dane 0 cert.dane
    println "" []

  unfoldable pub print_all : Option Text → List CertificateConfig → Io (Unit {0})
  print_all name_filter [] = pure tt
  print_all name_filter (cert ∷ certs) = do
    when (is_chosen name_filter cert.name) (print_certificate cert)
    print_all name_filter certs

  unfoldable pub print_status : Config → Option Text → Io (Unit {0})
  print_status c name_filter = print_all name_filter c.certificates
