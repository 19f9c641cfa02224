-- ===== src/Acme/Account.antt =====
-- src/acme.rs: the ACME account, loaded or created.
use certforge.Base.{Bytes, Option, none, some, [], if◌then◌else◌}
use certforge.Base.Paths.{parent}
use certforge.Error.{acme, config, io, Result, ok, err, panic}
use certforge.Config.{FilePath, AcmeConfig}
use certforge.Crates.{Crates}
use certforge.Credentials.{load_secret, make_parent, encrypt_credential}
use certforge.Exec.{pure, raise, lift, capture, ◌>>=◌, ◌>>◌}
use certforge.World.{
  load_account, create_account, deactivate, write_file, set_permissions, Io, Env, ok_or_err, ask,
  attempt,
}

module _ (crates : Crates) (env : Env) where
  unfoldable pub load : AcmeConfig → Io (Unit {0})
  load acme_config = do
    content ← load_secret env acme_config.account_key_credential acme_config.account_key_path
    if crates.is_account content
        then attempt env (load_account content) (acme "{0}" [])
        else raise (config "invalid account credentials: {e}" [])

  -- the encrypted credential, if one is configured, else the file, for its owner only
  unfoldable pub save_credentials : Bytes → Option FilePath → Option FilePath → Io (Unit {0})
  save_credentials creds_json (some cred_path) path = encrypt_credential env creds_json cred_path
  save_credentials creds_json none (some file_path) = do
    make_parent env (parent file_path) (λ _. io)
    attempt env (write_file file_path creds_json) io
    attempt env (set_permissions file_path 0o600) io
  save_credentials creds_json none none = pure tt

  unfoldable pub create : AcmeConfig → Io (Unit {0})
  create acme_config = do
    let request = create_account acme_config.contact acme_config.directory_url
    creds ← ask request (λ h. env.new_account h request) (acme "{0}" [])
    creds_json ←
        lift
          (ok_or_err (config "failed to serialize credentials: {e}" []) (crates.account_json creds))
    save_credentials creds_json acme_config.account_key_credential acme_config.account_key_path

  unfoldable pub or_create : AcmeConfig → Result (Unit {0}) → Io (Unit {0})
  or_create acme_config (ok client) = pure client
  or_create acme_config (err e) = create acme_config
  or_create acme_config panic = lift panic

  -- `AcmeClient::new`
  unfoldable pub open_account : AcmeConfig → Io (Unit {0})
  open_account acme_config = do loaded ← capture (load acme_config); or_create acme_config loaded

  unfoldable pub deactivate_account : Io (Unit {0})
  deactivate_account = attempt env deactivate (acme "{0}" [])
