-- ===== src/Certs.antt =====
-- src/certs.rs: a parsed certificate, and the days until it expires.
-- A `DateTime<Utc>` is its nanoseconds since the epoch, and a duration their difference.
pub mod Expiry
pub mod Load
use certforge.Base.{
  arith, ◌≢◌, Text, Bytes, codes, show_u8, length, ℕ, ◌+◌, ◌/◌, ◌%◌, ltb, ◌==◌, ◌-◌, Bool, Option,
  none, some, List, [], ◌∷◌, ◌++◌, if◌then◌else◌,
}
use certforge.Base.Int.{ℤ, pos, ◌+ℤ◌, ◌-ℤ◌, leb_ℤ, div_ℤ}
use certforge.Error.{panic, Result, ok, err, certificate, ◌>>=◌}
use certforge.Config.{ok_or}
use certforge.Crates.{GeneralName, dns_name, ip_address, other_name, X509, Crates}

pub record CertInfo : Type 0 where
  pub leaf_der : Bytes
  pub not_after : ℤ
  pub san : List Text
  pub spki_der : Bytes

-- `TimeDelta::num_seconds`, which drops the fraction
abbrev pub num_seconds : ℤ → ℤ
num_seconds nanos = div_ℤ nanos 1000000000

days_of_seconds : ℤ → ℤ
unfolding div_ℤ ◌+ℤ◌ ◌-ℤ◌
days_of_seconds secs =
    if leb_ℤ (pos 0) secs then div_ℤ (secs +ℤ pos 43200) 86400 else div_ℤ (secs -ℤ pos 43200) 86400

unfoldable pub days_until_expiry : CertInfo → ℤ → ℤ
unfolding days_of_seconds
days_until_expiry cert now = days_of_seconds (num_seconds (cert.not_after -ℤ now))

unfoldable pub expires_within_days : CertInfo → ℤ → ℕ → Bool
unfolding days_until_expiry
expires_within_days cert now days = leb_ℤ (days_until_expiry cert now) (pos days)

-- `{:02x}` of a byte
hex_digit : ℕ → ℕ
hex_digit d = if ltb d 10 then b'0' + d else b'a' + (d - 10)

hex_byte : ℕ → Text
unfolding hex_digit
hex_byte c = hex_digit (c / 16) ∷ hex_digit (c % 16) ∷ []

-- `chunks(2)` in hex, joined by `:`; the length is even where it is used
hex_pairs : Bytes → Text
unfolding hex_byte
hex_pairs [] = []
hex_pairs (a ∷ []) = hex_byte a
hex_pairs (a ∷ b ∷ []) = hex_byte a ++ hex_byte b
hex_pairs (a ∷ b ∷ rest) = hex_byte a ++ (hex_byte b ++ (b':' ∷ hex_pairs rest))

-- an address of 4 or 16 bytes; any other length is passed over
show_address : Bytes → List Text
unfolding hex_pairs
show_address (a ∷ b ∷ c ∷ d ∷ []) =
    (show_u8 a ++ (b'.' ∷ (show_u8 b ++ (b'.' ∷ (show_u8 c ++ (b'.' ∷ show_u8 d)))))) ∷ []
show_address ip = if length ip == 16 then hex_pairs ip ∷ [] else []

names_of : List GeneralName → List Text
unfolding show_address
names_of [] = []
names_of (dns_name dns ∷ names) = dns ∷ names_of names
names_of (ip_address ip ∷ names) = show_address ip ++ names_of names
names_of (other_name ∷ names) = names_of names

unfoldable pub extract_san : Option (List GeneralName) → List Text
unfolding names_of
extract_san none = []
extract_san (some names) = names_of names

module _ (crates : Crates) where
  -- the first block is the leaf
  parse_blocks : List Bytes → Result CertInfo
  parse_blocks [] = err (certificate "no certificates found in PEM data" [])
  parse_blocks (leaf_der ∷ _) = do
    cert ← ok_or (crates.x509_parse leaf_der) (certificate "failed to parse X.509: {e}" [])
    not_after ←
        ok_or (crates.from_timestamp cert.not_after) (certificate "invalid timestamp: {ts}" [])
    ok (record {
      leaf_der = leaf_der;
      not_after = not_after;
      san = extract_san cert.subject_alternative_name;
      spki_der = cert.public_key_raw;
    })

  unfoldable pub from_pem : Text → Result CertInfo
  unfolding parse_blocks
  from_pem pem_data = do
    blocks ← ok_or (crates.pem_parse_many pem_data) (certificate "failed to parse PEM: {e}" [])
    parse_blocks blocks

  parse_blocks-ne-panic : (blocks : List Bytes) → parse_blocks blocks ≢ panic
  unfolding parse_blocks
  parse_blocks-ne-panic [] = ground arith
  parse_blocks-ne-panic (leaf ∷ blocks) = ground arith

  pub from_pem-ne-panic : (pem_data : Text) → from_pem pem_data ≢ panic
  unfolding from_pem
  from_pem-ne-panic pem_data = grind (arith, parse_blocks-ne-panic)
