-- ===== src/Crates.antt =====
-- The pure functions of other crates that the program calls, as parameters: `sha2`, `hex`, `pem`,
-- `base64`, `ring`, `x509-parser` and `chrono`, and `IpAddr`'s parser. Nothing is assumed of them
-- here; a theorem that needs a law of one states it.
use certforge.Base.{ℕ, Text, Bytes, Bool, Option, List}
use certforge.Base.Int.{ℤ}
use certforge.Config.{KeyType, TsigAlgorithm}

pub data GeneralName : Type 0 where
  dns_name : Text → GeneralName
  ip_address : Bytes → GeneralName
  other_name : GeneralName

-- what the program reads of a parsed certificate
pub record X509 : Type 0 where
  pub not_after : ℤ
  -- the names of the extension, if it is there and well formed
  pub subject_alternative_name : Option (List GeneralName)
  pub public_key_raw : Bytes

pub record Crates : Type 0 where
  -- `blocking_read` of tokio's `RwLock`, called inside of its runtime or outside of it: what the lock
  -- holds, or none where it panics
  pub blocking_read : (in_runtime : Bool) → List (Text × Bytes) → Option (List (Text × Bytes))
  pub sha256 : Bytes → Bytes
  pub sha512 : Bytes → Bytes
  pub hex_encode : Bytes → Text
  pub base64_decode : Bytes → Option Bytes
  -- `pem::parse` with `contents`, `pem::parse_many`, and `pem::encode` under the tag `PRIVATE KEY`
  pub pem_parse : Bytes → Option Bytes
  pub pem_parse_many : Text → Option (List Bytes)
  pub pem_encode : Bytes → Text
  -- the public key of the pair that `EcdsaKeyPair::from_pkcs8` reads
  pub ec_public_key : KeyType → Bytes → Option Bytes
  pub x509_parse : Bytes → Option X509
  -- `DateTime::from_timestamp(ts, 0)`, in nanoseconds
  pub from_timestamp : ℤ → Option ℤ
  -- `s.parse::<IpAddr>().is_ok()`
  pub is_ip : Text → Bool
  -- `Name::from_ascii`, as the name it reads
  pub name_from_ascii : Text → Option Text
  -- whether `serde_json` reads the bytes as `AccountCredentials`, and what it writes for new ones
  pub is_account : Bytes → Bool
  pub account_json : Bytes → Option Bytes
  -- whether rcgen takes the names, and the key for a request
  pub certificate_params : List Text → Bool
  pub csr_key : KeyType → Bytes → Bool
  -- `rustls::crypto::ring::sign::any_supported_type`
  pub signing_key : Bytes → Bool
  -- whether `TSigner::new` takes the key, the algorithm, the name and the fudge
  pub new_signer : Bytes → TsigAlgorithm → Text → ℕ → Bool
