-- ===== src/Keys/Der.antt =====
-- src/keys.rs, `wrap_ec_spki` and `encode_asn1_length`: an EC public key as a
-- SubjectPublicKeyInfo structure in DER.
pub mod Reader
use certforge.Base.{Bytes, length, ℕ, ◌+◌, ◌/◌, ◌%◌, ltb, List, [], ◌∷◌, ◌++◌, if◌then◌else◌}

unfoldable pub ec_public_key_oid : Bytes
ec_public_key_oid = 0x06 ∷ 0x07 ∷ 0x2a ∷ 0x86 ∷ 0x48 ∷ 0xce ∷ 0x3d ∷ 0x02 ∷ 0x01 ∷ []

unfoldable pub ec_p256_oid : Bytes
ec_p256_oid = 0x06 ∷ 0x08 ∷ 0x2a ∷ 0x86 ∷ 0x48 ∷ 0xce ∷ 0x3d ∷ 0x03 ∷ 0x01 ∷ 0x07 ∷ []

unfoldable pub ec_p384_oid : Bytes
ec_p384_oid = 0x06 ∷ 0x05 ∷ 0x2b ∷ 0x81 ∷ 0x04 ∷ 0x00 ∷ 0x22 ∷ []

-- `len as u8`
abbrev as_u8 : ℕ → ℕ
as_u8 n = n % 256

-- what `encode_asn1_length` pushes
unfoldable pub length_bytes : ℕ → Bytes
length_bytes len =
    if ltb len 0x80
    then as_u8 len ∷ []
    else if ltb len 0x100
    then 0x81 ∷ as_u8 len ∷ []
    else 0x82 ∷ as_u8 (len / 256) ∷ as_u8 len ∷ []

unfoldable pub encode_asn1_length : ℕ → Bytes → Bytes
encode_asn1_length len buf = buf ++ length_bytes len

unfoldable pub wrap_ec_spki : Bytes → Bytes → Bytes
wrap_ec_spki public_key curve_oid =
    let alg_id =
      encode_asn1_length (length ec_public_key_oid + length curve_oid) (0x30 ∷ [])
      ++ ec_public_key_oid
      ++ curve_oid in
    let bit_string =
      encode_asn1_length (1 + length public_key) (0x03 ∷ []) ++ (0x00 ∷ []) ++ public_key in
    encode_asn1_length (length alg_id + length bit_string) (0x30 ∷ []) ++ alg_id ++ bit_string
