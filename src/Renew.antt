-- ===== src/Renew.antt =====
-- src/renew.rs: which key a renewal uses, and the rotation of keys with DANE pre-publication.
-- A function that changes the run's state takes it and gives it back beside its result, on an error
-- too.
pub mod Rotation
pub mod Build
pub mod Order
pub mod Issue
pub mod Steps
pub mod Effect
pub mod Certificate
pub mod Reach
pub mod Dry
pub mod Cleanup
pub mod Valid
pub mod Run
pub mod Waiting
use certforge.Base.{
  Text, Bytes, codes, ltb, any, ℕ, Bool, true, false, not, ◌&&◌, ◌||◌, get, remove, insert, Option,
  none, some, List, [], ◌∷◌, ◌++◌, if◌then◌else◌, ◌≡◌,
}
use certforge.Base.Paths.{join, parent}
use certforge.Error.{Error, io, key, Result, ok, err, panic}
use certforge.Config.{
  FilePath, DaneSelector, spki, DaneConfig, CertificateConfig, Config, dns_client,
}
use certforge.Crates.{Crates}
use certforge.Keys.Pair.{CertKeyPair, from_pem_or_der, to_pem}
use certforge.Keys.{generate, load_pair}
use certforge.Credentials.{make_parent, encrypt_credential}
use certforge.State.{PendingRotation, State, Json, save}
use certforge.Dane.Records.{compute_tlsa_from_key, first_record}
use certforge.Dane.{add_tlsa}
use certforge.Dns.Tsig.{load_tsig_signer}
use certforge.Dns.Update.{connect_updater}
use certforge.Exec.{pure, raise, lift, map_err, capture, ◌>>=◌, ◌>>◌}
use certforge.World.{
  Event, read_clock, read_file, create_dir_all, write_file, set_permissions, Io, Env, ask, observe,
  attempt,
}

pub record KeyResult : Type 0 where
  pub key : CertKeyPair
  pub needs_save : Bool

unfoldable pub is_spki : DaneSelector → Bool
is_spki spki = true
is_spki DaneSelector.full = false

unfoldable pub pre_published : DaneConfig → Bool
pre_published d = d.pre_publish && is_spki d.selector

abbrev pub max : ℕ → ℕ → ℕ
max a b = if ltb a b then b else a

unfoldable pub pending_path : FilePath → CertificateConfig → FilePath
pending_path state_dir cert = join (join state_dir (codes "pending")) (cert.name ++ codes ".key")

unfoldable pub without_pending : CertificateConfig → State → State
without_pending cert s = record { pending_rotations = remove cert.name s.pending_rotations }

unfoldable pub with_pending : CertificateConfig → PendingRotation → State → State
with_pending cert pending s = record {
  pending_rotations = insert cert.name pending s.pending_rotations;
}

abbrev pub to_save : Bool → CertKeyPair → KeyResult
to_save needs_save pair = record { key = pair; needs_save = needs_save }

module _ (crates : Crates) (env : Env) where
  -- the body of the loop of `pre_publish_dane`
  unfoldable pub pre_publish_entry : Config → CertKeyPair → DaneConfig → Io (Unit {0})
  pre_publish_entry config new_key dane = do
    records ← lift (compute_tlsa_from_key crates new_key dane)
    tlsa ← lift (first_record records)
    dns_config ← lift (dns_client config dane.dns)
    signer ← load_tsig_signer crates env dns_config
    connect_updater env dns_config
    add_tlsa crates env dns_config dane tlsa

  unfoldable pub pre_publish_from : Config → CertKeyPair → Bool → ℕ → List DaneConfig → Io ℕ
  pre_publish_from config new_key dry_run max_ttl [] = pure max_ttl
  pre_publish_from config new_key dry_run max_ttl (dane ∷ entries) =
      let skipped = pre_publish_from config new_key dry_run max_ttl entries in
      let rest = pre_publish_from config new_key dry_run (max max_ttl dane.ttl) entries in
      let published = pre_publish_entry config new_key dane >> rest in
      if pre_published dane then (if dry_run then rest else published) else skipped

  unfoldable pub pre_publish_dane : Config → CertificateConfig → CertKeyPair → Bool → Io ℕ
  pre_publish_dane config cert new_key dry_run = pre_publish_from config new_key dry_run 0 cert.dane

  unfoldable pub load_pending : CertificateConfig → PendingRotation → Io (Option KeyResult)
  load_pending cert pending = do
    key_data ←
        ask (read_file pending.pending_key_path) (λ h. env.contents h pending.pending_key_path)
          (key "failed to read pending key: {e}" [])
    pair ← lift (from_pem_or_der crates key_data cert.key_type)
    pure (some (to_save true pair))

  -- `match CertKeyPair::load(…)`
  unfoldable pub or_generate : CertificateConfig → Result CertKeyPair → Io (Option KeyResult)
  or_generate cert (ok pair) = pure (some (to_save false pair))
  or_generate cert (err e) = do pair ← generate env cert.key_type; pure (some (to_save true pair))
  or_generate cert panic = lift panic

  unfoldable pub load_or_generate : CertificateConfig → Io (Option KeyResult)
  load_or_generate cert = do
    loaded ← capture (load_pair env crates cert.key_credential cert.key_path cert.key_type)
    or_generate cert loaded

  -- the pending key is on the disk before its record is published
  unfoldable pub store_and_publish :
      Config → CertificateConfig → FilePath → CertKeyPair → Bool → Io PendingRotation
  store_and_publish config cert state_dir new_key dry_run = do
    attempt env (create_dir_all (join state_dir (codes "pending"))) io
    attempt env (write_file (pending_path state_dir cert) (to_pem crates new_key)) io
    attempt env (set_permissions (pending_path state_dir cert) 0o600) io
    max_ttl ← pre_publish_dane config cert new_key dry_run
    published_at ← observe read_clock env.clock
    pure (record {
      pending_key_path = pending_path state_dir cert;
      published_at = published_at;
      old_ttl = max_ttl;
    })

  abbrev pub Outcome : Type 0
  Outcome = State × Result (Option KeyResult)

  abbrev pub deferred : Result (Unit {0}) → Result (Option KeyResult)
  deferred (ok u) = ok none
  deferred (err e) = err e
  deferred panic = panic

  unfoldable pub record_rotation :
      Json → CertificateConfig → FilePath → State → Result PendingRotation → Io Outcome
  record_rotation json cert state_dir s (ok pending) = do
    let s' = with_pending cert pending s
    saved ← capture (save env json s' state_dir)
    pure (s', deferred saved)
  record_rotation json cert state_dir s (err e) = pure (s, err e)
  record_rotation json cert state_dir s panic = pure (s, panic)

  unfoldable pub pre_publish :
      Config → Json → CertificateConfig → FilePath → State → Bool → CertKeyPair → Io Outcome
  pre_publish config json cert state_dir s dry_run new_key = do
    stored ← capture (store_and_publish config cert state_dir new_key dry_run)
    record_rotation json cert state_dir s stored

  unfoldable pub rotate :
      Config → Json → CertificateConfig → FilePath → State → Bool → Result CertKeyPair → Io Outcome
  rotate config json cert state_dir s dry_run (err e) = pure (s, err e)
  rotate config json cert state_dir s dry_run panic = pure (s, panic)
  rotate config json cert state_dir s dry_run (ok new_key) =
      if any pre_published cert.dane
      then (if dry_run
          then pure (s, ok none)
          else pre_publish config json cert state_dir s dry_run new_key)
      else pure (s, ok (some (to_save true new_key)))

  -- `determine_key`, where there is no pending rotation
  unfoldable pub fresh_key :
      Config → Json → CertificateConfig → FilePath → Bool → State → Bool → Io Outcome
  fresh_key config json cert state_dir dry_run s true = do
    new_key ← capture (generate env cert.key_type)
    rotate config json cert state_dir s dry_run new_key
  fresh_key config json cert state_dir dry_run s false = do
    loaded ← capture (load_or_generate cert)
    pure (s, loaded)

  -- the pending rotation is taken out first
  unfoldable pub key_for :
      Config
      → Json
      → CertificateConfig
      → FilePath
      → Bool
      → State
      → Option PendingRotation
      → Io Outcome
  key_for config json cert state_dir dry_run s (some pending) = do
    loaded ← capture (load_pending cert pending)
    pure (without_pending cert s, loaded)
  key_for config json cert state_dir dry_run s none =
      fresh_key config json cert state_dir dry_run s cert.rotate_key

  unfoldable pub determine_key :
      Config → Json → CertificateConfig → FilePath → Bool → State → Io Outcome
  determine_key config json cert state_dir dry_run s =
      key_for config json cert state_dir dry_run s (get cert.name s.pending_rotations)

  -- `save_key`: the credential, if there is one, else the file
  unfoldable pub save_pem : Text → Option FilePath → Option FilePath → Io (Unit {0})
  save_pem pem (some cred_path) path =
      map_err (key "failed to save encrypted key to {}: {e}" (cred_path ∷ []))
        (encrypt_credential env pem cred_path)
  save_pem pem none (some key_path) = do
    make_parent env (parent key_path) (λ dir. key "failed to create directory {}: {e}" (dir ∷ []))
    attempt env (write_file key_path pem) (key "failed to write key to {}: {e}" (key_path ∷ []))
  save_pem pem none none = pure tt

  unfoldable pub save_key : CertKeyPair → CertificateConfig → Io (Unit {0})
  save_key pair cert = save_pem (to_pem crates pair) cert.key_credential cert.key_path
