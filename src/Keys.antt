-- ===== src/Keys.antt =====
-- src/keys.rs: key pairs of certificates, made by `ring` or loaded.
pub mod Der
pub mod Pair
pub mod RoundTrip
use certforge.Base.{Text, Bytes, Option, none, some, List, [], ◌∷◌, ◌≡◌}
use certforge.Error.{Result, ok, err, key}
use certforge.Config.{FilePath, KeyType, ecdsa_p256, ecdsa_p384, rsa2048, rsa4096}
use certforge.Crates.{Crates}
use certforge.Keys.Pair.{CertKeyPair, from_pem_or_der}
use certforge.Credentials.{load_secret}
use certforge.Exec.{pure, raise, lift, ◌>>=◌, ◌>>◌}
use certforge.World.{generate_key, Io, Env, ask}

unfoldable pub generated_pair : KeyType → Bytes → CertKeyPair
generated_pair key_type der = record { key_type = key_type; pkcs8_der = der }

module _ (env : Env) where
  unfoldable pub generate : KeyType → Io CertKeyPair
  generate ecdsa_p256 = do
    der ←
        ask (generate_key ecdsa_p256) (λ h. env.generated h (generate_key ecdsa_p256))
          (key "failed to generate ECDSA P-256 key: {e}" [])
    pure (generated_pair ecdsa_p256 der)
  generate ecdsa_p384 = do
    der ←
        ask (generate_key ecdsa_p384) (λ h. env.generated h (generate_key ecdsa_p384))
          (key "failed to generate ECDSA P-384 key: {e}" [])
    pure (generated_pair ecdsa_p384 der)
  generate rsa2048 =
      raise (key "RSA key generation not yet supported; use ecdsa-p256 or ecdsa-p384" [])
  generate rsa4096 =
      raise (key "RSA key generation not yet supported; use ecdsa-p256 or ecdsa-p384" [])

  unfoldable pub load_pair : Crates → Option FilePath → Option FilePath → KeyType → Io CertKeyPair
  load_pair crates credential path key_type = do
    pem_or_der ← load_secret env credential path
    lift (from_pem_or_der crates pem_or_der key_type)
