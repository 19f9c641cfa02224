-- ===== src/Keys/RoundTrip.antt =====
-- A key through PEM and back, and its public key in DER.
use certforge.Base.{Bytes, length, ◌<◌, ◌≤◌, arith, some, [], ◌≡◌, sym, ap, ◌∙◌}
use certforge.Error.{Result, ok, eq_of_ok, >>=-eq-ok, ◌>>=◌}
use certforge.Config.{KeyType, ecdsa_p256, ecdsa_p384, rsa2048, rsa4096}
use certforge.Crates.{Crates}
use certforge.Keys.Der.{wrap_ec_spki, ec_p256_oid, ec_p384_oid}
use certforge.Keys.Der.Reader.{read_spki, read_spki-wrap_ec_spki}
use certforge.Keys.Pair.{
  CertKeyPair, check_key, spki_of, unwrap_pem, from_pem_or_der, to_pem, spki_der,
}

-- the identifier of the curve
abbrev pub curve_of : KeyType → Bytes
curve_of ecdsa_p256 = ec_p256_oid
curve_of ecdsa_p384 = ec_p384_oid
curve_of rsa2048 = []
curve_of rsa4096 = []

length-curve_of : (key_type : KeyType) → length (curve_of key_type) ≤ 20
unfolding ec_p256_oid ec_p384_oid
length-curve_of ecdsa_p256 = omega arith
length-curve_of ecdsa_p384 = omega arith
length-curve_of rsa2048 = omega arith
length-curve_of rsa4096 = omega arith

module _ (crates : Crates) where
  check_key-some :
      (key_type : KeyType) (der a : Bytes)
      → check_key crates key_type der ≡ ok a
      → crates.ec_public_key key_type der ≡ some a
  unfolding check_key
  check_key-some ecdsa_p256 der a e = ground arith
  check_key-some ecdsa_p384 der a e = ground arith
  check_key-some rsa2048 der a e = cc
  check_key-some rsa4096 der a e = cc

  -- what `from_pem_or_der` does once the DER is there
  abbrev checked : KeyType → Bytes → Result CertKeyPair
  checked key_type der =
      check_key crates key_type der >>= λ _. ok (record { key_type = key_type; pkcs8_der = der })

  checked-again :
      (key_type : KeyType) (der : Bytes) (pair : CertKeyPair)
      → checked key_type der ≡ ok pair
      → (checked key_type pair.pkcs8_der ≡ ok pair)
        × (pair.key_type ≡ key_type)
        × ((k : Bytes) × (check_key crates key_type pair.pkcs8_der ≡ ok k))
  checked-again key_type der pair e =
      let (k, q, f) = >>=-eq-ok (check_key crates key_type der) _ e in
      let same : (record { key_type = key_type; pkcs8_der = der }) ≡ pair = eq_of_ok _ _ f in
      let kept : check_key crates key_type pair.pkcs8_der ≡ ok k =
        ap (λ p. check_key crates key_type p.pkcs8_der) (sym same) ∙ q in
      let built =
        ap (λ p. ok (record { key_type = key_type; pkcs8_der = p.pkcs8_der })) (sym same) in
      (rw kept (built ∙ f), ap (λ p. p.key_type) (sym same), (k, kept))

  -- A key that was once read is read back the same from the PEM that it is written as.
  pub from_pem_or_der-to_pem :
      (content : Bytes) (key_type : KeyType) (pair : CertKeyPair)
      → ((der : Bytes) → crates.pem_parse (crates.pem_encode der) ≡ some der)
      → from_pem_or_der crates content key_type ≡ ok pair
      → from_pem_or_der crates (to_pem crates pair) key_type ≡ ok pair
  unfolding from_pem_or_der to_pem unwrap_pem
  from_pem_or_der-to_pem content key_type pair law e =
      rw (law pair.pkcs8_der) (checked-again key_type _ pair e).0

  spki_of-some :
      (key_type : KeyType) (der k a : Bytes)
      → check_key crates key_type der ≡ ok a
      → crates.ec_public_key key_type der ≡ some k
      → spki_of crates key_type der ≡ ok (wrap_ec_spki k (curve_of key_type))
  unfolding check_key spki_of
  spki_of-some ecdsa_p256 der k a e q = ground arith
  spki_of-some ecdsa_p384 der k a e q = ground arith
  spki_of-some rsa2048 der k a e q = cc
  spki_of-some rsa4096 der k a e q = cc

  -- A key that was read has a SubjectPublicKeyInfo, which holds its curve and its public key, if a
  -- public key is shorter than 1,000 bytes.
  pub read_spki-spki_der :
      (content : Bytes) (key_type : KeyType) (pair : CertKeyPair)
      → ((k : KeyType) (der a : Bytes) → crates.ec_public_key k der ≡ some a → length a < 1000)
      → from_pem_or_der crates content key_type ≡ ok pair
      → (spki : Bytes) × (public_key : Bytes) × (spki_der crates pair ≡ ok spki)
        × (crates.ec_public_key key_type pair.pkcs8_der ≡ some public_key)
        × (read_spki spki ≡ some (curve_of key_type, public_key))
  unfolding from_pem_or_der unwrap_pem spki_der
  read_spki-spki_der content key_type pair short e =
      let (_, kind, found) = checked-again key_type _ pair e in
      let (k, checks) = found in
      let read = check_key-some key_type pair.pkcs8_der k checks in
      (
        wrap_ec_spki k (curve_of key_type),
        k,
        rw kind (spki_of-some key_type pair.pkcs8_der k k checks read),
        read,
        read_spki-wrap_ec_spki k (curve_of key_type)
            (omega (arith, short key_type pair.pkcs8_der k read, length-curve_of key_type)),
      )
