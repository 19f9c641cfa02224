-- ===== src/Dns/Tsig.antt =====
-- src/dns/tsig.rs: the key that signs updates.
use certforge.Base.{
  Text, Bytes, keep, is_empty, ◌==◌, ℕ, Bool, not, ◌||◌, Option, none, some, [], if◌then◌else◌,
}
use certforge.Error.{dns_update}
use certforge.Config.{TsigAlgorithm, DnsClientConfig}
use certforge.Crates.{Crates}
use certforge.Credentials.{load_secret}
use certforge.Exec.{pure, raise, ◌>>=◌}
use certforge.World.{Io, Env, ok_or_err}
use certforge.Exec.{lift}

pub record TsigSigner : Type 0 where
  pub key_data : Bytes
  pub algorithm : TsigAlgorithm
  pub signer_name : Text

-- `u8::is_ascii_whitespace`
unfoldable pub is_ascii_whitespace : ℕ → Bool
is_ascii_whitespace c = c == 9 || (c == 10 || (c == 12 || (c == 13 || c == 32)))

-- text that decodes to something is Base64, anything else the key itself
unfoldable pub or_raw : Bytes → Option Bytes → Bytes
or_raw raw none = raw
or_raw raw (some decoded) = if is_empty decoded then raw else decoded

unfoldable pub decode_tsig_key : Crates → Bytes → Bytes
decode_tsig_key crates raw =
    or_raw raw (crates.base64_decode (keep (λ b. not (is_ascii_whitespace b)) raw))

unfoldable pub load_tsig_signer : Crates → Env → DnsClientConfig → Io TsigSigner
load_tsig_signer crates env dns_config = do
  raw_key ← load_secret env dns_config.tsig_key_credential dns_config.tsig_key_path
  let key_data = decode_tsig_key crates raw_key
  name ← lift (
      ok_or_err (dns_update "invalid TSIG key name: {e}" [])
        (crates.name_from_ascii dns_config.tsig_key_name))
  if crates.new_signer key_data dns_config.tsig_algorithm name 300
      then pure (record {
        key_data = key_data;
        algorithm = dns_config.tsig_algorithm;
        signer_name = name;
      })
      else raise (dns_update "failed to create TSIG signer: {e}" [])
