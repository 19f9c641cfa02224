-- ===== src/Keys/Pair.antt =====
-- src/keys.rs: reading, printing and wrapping a key pair.
use certforge.Base.{Text, Bytes, Option, none, some, []}
use certforge.Error.{Result, ok, err, key, ◌>>=◌}
use certforge.Config.{KeyType, ecdsa_p256, ecdsa_p384, rsa2048, rsa4096, ok_or}
use certforge.Crates.{Crates}
use certforge.Keys.Der.{wrap_ec_spki, ec_p256_oid, ec_p384_oid}

pub record CertKeyPair : Type 0 where
  pub key_type : KeyType
  pub pkcs8_der : Bytes

unfoldable pub unwrap_pem : Option Bytes → Bytes → Bytes
unwrap_pem none content = content
unwrap_pem (some contents) content = contents

module _ (crates : Crates) where
  -- the key must be one that `from_pkcs8` reads
  unfoldable pub check_key : KeyType → Bytes → Result Bytes
  check_key ecdsa_p256 der =
      ok_or (crates.ec_public_key ecdsa_p256 der) (key "invalid ECDSA P-256 key: {e}" [])
  check_key ecdsa_p384 der =
      ok_or (crates.ec_public_key ecdsa_p384 der) (key "invalid ECDSA P-384 key: {e}" [])
  check_key rsa2048 der = err (key "RSA keys not yet supported" [])
  check_key rsa4096 der = err (key "RSA keys not yet supported" [])

  unfoldable pub from_pem_or_der : Bytes → KeyType → Result CertKeyPair
  from_pem_or_der content key_type =
      let der = unwrap_pem (crates.pem_parse content) content in
      check_key key_type der >>= λ _. ok (record { key_type = key_type; pkcs8_der = der })

  unfoldable pub to_pem : CertKeyPair → Text
  to_pem pair = crates.pem_encode pair.pkcs8_der

  unfoldable pub spki_of : KeyType → Bytes → Result Bytes
  spki_of ecdsa_p256 der =
      ok_or (crates.ec_public_key ecdsa_p256 der) (key "failed to parse key for SPKI: {e}" [])
      >>= λ public_key. ok (wrap_ec_spki public_key ec_p256_oid)
  spki_of ecdsa_p384 der =
      ok_or (crates.ec_public_key ecdsa_p384 der) (key "failed to parse key for SPKI: {e}" [])
      >>= λ public_key. ok (wrap_ec_spki public_key ec_p384_oid)
  spki_of rsa2048 der = err (key "RSA SPKI extraction not yet supported" [])
  spki_of rsa4096 der = err (key "RSA SPKI extraction not yet supported" [])

  unfoldable pub spki_der : CertKeyPair → Result Bytes
  spki_der pair = spki_of pair.key_type pair.pkcs8_der
