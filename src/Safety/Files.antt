-- ===== src/Safety/Files.antt =====
-- Secrets, files, permissions, hooks and the account, and where they may panic.
use certforge.Base.{ℕ, Text, Bytes, Bool, Option, none, some, List, [], ◌∷◌}
use certforge.Error.{Error, Result, ok, err, panic}
use certforge.Config.{
  FilePath, KeyType, ecdsa_p256, ecdsa_p384, rsa2048, rsa4096, AcmeConfig, HookConfig,
  systemd_reload, systemd_restart, command, CertificateConfig,
}
use certforge.Config.Modes.{parse_mode-ne-panic}
use certforge.Crates.{Crates}
use certforge.Certs.{from_pem-ne-panic}
use certforge.Certs.Load.{load_cert}
use certforge.Credentials.{
  check_decrypted, check_encrypted, decrypt_credential, make_parent, encrypt_credential,
  load_secret,
}
use certforge.Keys.{generate}
use certforge.State.{State, Json, read_state, load, save}
use certforge.Acme.Account.{save_credentials, create, or_create, open_account}
use certforge.Acme.Account
use certforge.Permissions.{
  desired_mode, resolve_uid, resolve_gid, resolve_each, chown, apply_mode, apply_ids, apply_owner,
  apply_existing, apply, apply_key, ensure_permissions,
}
use certforge.Hooks.{
  Action, check_exit, call_if_active, systemd_unit_action, run_command, run_hook, run_hooks,
}
use certforge.Exec.Panics.{
  IsSafe, IsSafe-ne, NeverPanics, NeverPanics-pure, NeverPanics-lift, NeverPanics-bind,
  NeverPanics-capture, NeverPanics-handle, NeverPanics-ask, panic_rules,
}
use certforge.World.{Metadata, Io, Env, Exit, not_run, io_failed, failure, success}

check_decrypted-NeverPanics :
    (path : FilePath) (exit : Exit) → NeverPanics (check_decrypted path exit)
unfolding check_decrypted
check_decrypted-NeverPanics path not_run = search panic_rules
check_decrypted-NeverPanics path io_failed = search panic_rules
check_decrypted-NeverPanics path failure = search panic_rules
check_decrypted-NeverPanics path (success stdout) = search panic_rules

check_encrypted-NeverPanics :
    (path : FilePath) (exit : Exit) → NeverPanics (check_encrypted path exit)
unfolding check_encrypted
check_encrypted-NeverPanics path not_run = search panic_rules
check_encrypted-NeverPanics path io_failed = search panic_rules
check_encrypted-NeverPanics path failure = search panic_rules
check_encrypted-NeverPanics path (success stdout) = search panic_rules

check_exit-NeverPanics : (words : List Text) (exit : Exit) → NeverPanics (check_exit words exit)
unfolding check_exit
check_exit-NeverPanics words not_run = search panic_rules
check_exit-NeverPanics words io_failed = search panic_rules
check_exit-NeverPanics words failure = search panic_rules
check_exit-NeverPanics words (success stdout) = search panic_rules

module _ (env : Env) where
  pub load_secret-NeverPanics :
      (credential path : Option FilePath) → NeverPanics (load_secret env credential path)
  unfolding load_secret decrypt_credential
  load_secret-NeverPanics (some cred_path) path = search (panic_rules, check_decrypted-NeverPanics)
  load_secret-NeverPanics none (some file_path) = search panic_rules
  load_secret-NeverPanics none none = search panic_rules

  pub make_parent-NeverPanics :
      (dir : Option FilePath) (error : FilePath → Error) → NeverPanics (make_parent env dir error)
  unfolding make_parent
  make_parent-NeverPanics none error = search panic_rules
  make_parent-NeverPanics (some dir) error = search panic_rules

  pub encrypt_credential-NeverPanics :
      (secret : Bytes) (path : FilePath) → NeverPanics (encrypt_credential env secret path)
  unfolding encrypt_credential
  encrypt_credential-NeverPanics secret path =
      search (panic_rules, make_parent-NeverPanics, check_encrypted-NeverPanics)

  pub generate-NeverPanics : (key_type : KeyType) → NeverPanics (generate env key_type)
  unfolding generate
  generate-NeverPanics ecdsa_p256 = search panic_rules
  generate-NeverPanics ecdsa_p384 = search panic_rules
  generate-NeverPanics rsa2048 = search panic_rules
  generate-NeverPanics rsa4096 = search panic_rules

  pub load-NeverPanics :
      (json : Json) (state_dir : FilePath) → NeverPanics (load env json state_dir)
  unfolding load read_state
  load-NeverPanics json state_dir = search panic_rules

  pub save-NeverPanics :
      (json : Json) (s : State) (state_dir : FilePath) → NeverPanics (save env json s state_dir)
  unfolding save
  save-NeverPanics json s state_dir = search panic_rules

  pub load_cert-NeverPanics :
      (crates : Crates) (path : FilePath) → NeverPanics (load_cert crates env path)
  unfolding load_cert
  load_cert-NeverPanics crates path =
      NeverPanics-bind _ _ (NeverPanics-ask _ _ _)
        λ pem. NeverPanics-lift _ (IsSafe-ne _ (from_pem-ne-panic crates pem))

  desired_mode-NeverPanics :
      (mode : Option Text) (default : ℕ) → NeverPanics (desired_mode mode default)
  unfolding desired_mode
  desired_mode-NeverPanics none default = search panic_rules
  desired_mode-NeverPanics (some s) default =
      NeverPanics-lift _ (IsSafe-ne _ (parse_mode-ne-panic s))

  resolve_uid-NeverPanics : (name : Text) → NeverPanics (resolve_uid env name)
  unfolding resolve_uid
  resolve_uid-NeverPanics name = search panic_rules

  resolve_gid-NeverPanics : (name : Text) → NeverPanics (resolve_gid env name)
  unfolding resolve_gid
  resolve_gid-NeverPanics name = search panic_rules

  resolve_each-NeverPanics :
      (resolve : Text → Io ℕ) (name : Option Text)
      → ((n : Text) → NeverPanics (resolve n))
      → NeverPanics (resolve_each resolve name)
  unfolding resolve_each
  resolve_each-NeverPanics resolve none k = NeverPanics-pure none
  resolve_each-NeverPanics resolve (some n) k =
      NeverPanics-bind _ _ (k n) (λ a. NeverPanics-pure (some a))

  apply_ids-NeverPanics :
      (path : FilePath) (m : Metadata) (uid gid : Option ℕ) (dry_run : Bool)
      → NeverPanics (apply_ids env path m uid gid dry_run)
  unfolding apply_ids chown
  apply_ids-NeverPanics path m uid gid dry_run = search panic_rules

  apply_owner-NeverPanics :
      (path : FilePath) (m : Metadata) (owner group : Option Text) (dry_run : Bool)
      → NeverPanics (apply_owner env path m owner group dry_run)
  unfolding apply_owner
  apply_owner-NeverPanics path m owner group dry_run =
      NeverPanics-bind _ _ (resolve_each-NeverPanics _ owner resolve_uid-NeverPanics) λ uid.
        NeverPanics-bind _ _ (resolve_each-NeverPanics _ group resolve_gid-NeverPanics)
          λ gid. apply_ids-NeverPanics path m uid gid dry_run

  apply-NeverPanics :
      (path : FilePath) (mode : Option Text) (default : ℕ) (owner group : Option Text)
      (dry_run : Bool)
      → NeverPanics (apply env path mode default owner group dry_run)
  unfolding apply apply_existing apply_mode
  apply-NeverPanics path mode default owner group dry_run =
      search (panic_rules, desired_mode-NeverPanics, apply_owner-NeverPanics) depth 12

  apply_key-NeverPanics :
      (cert : CertificateConfig) (path : Option FilePath) (dry_run : Bool)
      → NeverPanics (apply_key env cert path dry_run)
  unfolding apply_key
  apply_key-NeverPanics cert none dry_run = search panic_rules
  apply_key-NeverPanics cert (some path) dry_run = search apply-NeverPanics

  pub ensure_permissions-NeverPanics :
      (cert : CertificateConfig) (dry_run : Bool)
      → NeverPanics (ensure_permissions env cert dry_run)
  unfolding ensure_permissions
  ensure_permissions-NeverPanics cert dry_run =
      search (panic_rules, apply_key-NeverPanics, apply-NeverPanics)

  systemd_unit_action-NeverPanics :
      (unit : Text) (action : Action) → NeverPanics (systemd_unit_action env unit action)
  unfolding systemd_unit_action call_if_active
  systemd_unit_action-NeverPanics unit action = search panic_rules depth 16

  run_command-NeverPanics : (words : List Text) → NeverPanics (run_command env words)
  unfolding run_command
  run_command-NeverPanics [] = search panic_rules
  run_command-NeverPanics (program ∷ args) = search (panic_rules, check_exit-NeverPanics)

  run_hook-NeverPanics :
      (dry_run : Bool) (hook : HookConfig) → NeverPanics (run_hook env dry_run hook)
  unfolding run_hook
  run_hook-NeverPanics dry_run (systemd_reload unit) =
      search (panic_rules, systemd_unit_action-NeverPanics)
  run_hook-NeverPanics dry_run (systemd_restart unit) =
      search (panic_rules, systemd_unit_action-NeverPanics)
  run_hook-NeverPanics dry_run (command words) = search (panic_rules, run_command-NeverPanics)

  pub run_hooks-NeverPanics :
      (dry_run : Bool) (hooks : List HookConfig) → NeverPanics (run_hooks env dry_run hooks)
  unfolding run_hooks
  run_hooks-NeverPanics dry_run [] = NeverPanics-pure []
  run_hooks-NeverPanics dry_run (h ∷ hooks) =
      NeverPanics-bind _ _ (NeverPanics-capture _ (run_hook-NeverPanics dry_run h)) λ r.
        NeverPanics-bind _ _ (run_hooks-NeverPanics dry_run hooks) λ rs. NeverPanics-pure (r ∷ rs)

  module _ (crates : Crates) where
    save_credentials-NeverPanics :
        (creds : Bytes) (credential path : Option FilePath)
        → NeverPanics (save_credentials crates env creds credential path)
    unfolding save_credentials
    save_credentials-NeverPanics creds (some cred_path) path =
        encrypt_credential-NeverPanics creds cred_path
    save_credentials-NeverPanics creds none (some file_path) =
        search (panic_rules, make_parent-NeverPanics)
    save_credentials-NeverPanics creds none none = search panic_rules

    create-NeverPanics : (acme : AcmeConfig) → NeverPanics (create crates env acme)
    unfolding create
    create-NeverPanics acme = search (panic_rules, save_credentials-NeverPanics)

    load_account-NeverPanics : (acme : AcmeConfig) → NeverPanics (Account.load crates env acme)
    unfolding Account.load
    load_account-NeverPanics acme = search (panic_rules, load_secret-NeverPanics)

    or_create-NeverPanics :
        (acme : AcmeConfig) (loaded : Result (Unit {0}))
        → IsSafe loaded
        → NeverPanics (or_create crates env acme loaded)
    unfolding or_create
    or_create-NeverPanics acme (ok client) safe = NeverPanics-pure client
    or_create-NeverPanics acme (err e) safe = create-NeverPanics acme
    or_create-NeverPanics acme panic safe = absurd safe.not_panic

    -- the account is created wherever it cannot be loaded
    pub open_account-NeverPanics : (acme : AcmeConfig) → NeverPanics (open_account crates env acme)
    unfolding open_account
    open_account-NeverPanics acme =
        NeverPanics-handle _ _ (load_account-NeverPanics acme) (or_create-NeverPanics acme)
