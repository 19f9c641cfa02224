-- ===== src/Solver/TlsAlpn01.antt =====
-- src/solver/tls_alpn01.rs: certificates for TLS-ALPN-01, and which one a handshake gets. A
-- `CertifiedKey` is the certificate that `rcgen` has signed.
use certforge.Base.{
  Text, Bytes, length, get, insert, remove, Dict, ◌%◌, Bool, true, false, Option, none, some, List,
  [], ◌∷◌, if◌then◌else◌,
}
use certforge.Error.{certificate, Result, ok, panic}
use certforge.Error
use certforge.Config.{ecdsa_p256}
use certforge.Crates.{Crates}
use certforge.Acme.{ChallengeInfo, identifier_of}
use certforge.Exec.{pure, lift, raise, ◌>>=◌, ◌>>◌}
use certforge.World.{accept, observe, generate_key, generate_alpn_cert, Io, Env, ask}

-- an OCTET STRING with the digest of the key authorization
unfoldable pub acme_extension : Crates → Text → Bytes
acme_extension crates key_authorization =
    let auth_hash = crates.sha256 key_authorization in 0x04 ∷ (length auth_hash % 256) ∷ auth_hash

module _ (crates : Crates) (env : Env) where
  -- `CertificateParams::new` is not called for an address
  unfoldable pub check_params : Text → Io (Unit {0})
  check_params identifier =
      if crates.is_ip identifier
      then pure tt
      else (if crates.certificate_params (identifier ∷ [])
          then pure tt
          else raise (certificate "invalid ALPN cert params: {e}" []))

  unfoldable pub generate_acme_cert : Text → Text → Io Bytes
  generate_acme_cert identifier key_authorization = do
    key_pair ←
        ask (generate_key ecdsa_p256) (λ h. env.generated h (generate_key ecdsa_p256))
          (certificate "failed to generate ALPN cert key: {e}" [])
    check_params identifier
    let request =
        generate_alpn_cert (identifier_of crates.is_ip identifier)
          (acme_extension crates key_authorization)
    cert ←
        ask request (λ h. env.generated h request)
          (certificate "failed to generate ALPN cert: {e}" [])
    if crates.signing_key key_pair
        then pure cert
        else raise (certificate "failed to create signing key: {e}" [])

module _ (crates : Crates) where
  -- `AcmeResolver::resolve`, which the server calls inside of the runtime
  unfoldable pub resolve_cert : Bool → Dict Bytes → Option Text → Result (Option Bytes)
  resolve_cert in_runtime certs none = ok none
  resolve_cert in_runtime certs (some server_name) = elim (crates.blocking_read in_runtime certs) [
    | none ↦ panic
    | some read ↦ ok (get server_name read)
  ]

  unfoldable pub resolve_all : Dict Bytes → List (Option Text) → Result (Unit {0})
  resolve_all certs [] = ok tt
  resolve_all certs (server_name ∷ names) =
      Error.◌>>=◌ (resolve_cert true certs server_name) (λ _. resolve_all certs names)

  -- The accept loop of a server that runs, with the handshakes that have come. A panic of its task is
  -- a panic of the program, since Cargo.toml has `panic = "abort"`.
  unfoldable pub serve : Env → Bool → Dict Bytes → Io (Unit {0})
  serve env false certs = pure tt
  serve env true certs = do names ← observe accept env.handshakes; lift (resolve_all certs names)

unfoldable pub present_cert : ChallengeInfo → Bytes → Dict Bytes → Dict Bytes
present_cert challenge certified_key certs = insert challenge.identifier certified_key certs

unfoldable pub cleanup_cert : ChallengeInfo → Dict Bytes → Dict Bytes
cleanup_cert challenge certs = remove challenge.identifier certs
