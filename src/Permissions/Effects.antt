-- ===== src/Permissions/Effects.antt =====
-- When permissions are touched, and when not.
use certforge.Base.{Text, ℕ, true, Option, none, some}
use certforge.Error.{Result}
use certforge.Config.{FilePath, CertificateConfig}
use certforge.Config.Modes.{parse_mode}
use certforge.Exec.Logs.{Logs, Logs-pure, Logs-bind, Logs-lift, Logs-when, Logs-if, Logs-raise}
use certforge.World.{Log, Env}
use certforge.World.Rules.{IsReadOnly, Logs-ask, Logs-observe}
use certforge.Permissions.{
  desired_mode, resolve_uid, resolve_gid, resolve_each, apply_mode, apply_ids, apply_owner,
  apply_existing, apply, apply_key, ensure_permissions,
}

module _ (env : Env) where
  pub desired_mode-Logs :
      (mode : Option Text) (default : ℕ) → Logs IsReadOnly (desired_mode mode default)
  unfolding desired_mode
  desired_mode-Logs none default = Logs-pure default
  desired_mode-Logs (some s) default = Logs-lift (parse_mode s)

  pub resolve_uid-Logs : (name : Text) → Logs IsReadOnly (resolve_uid env name)
  unfolding resolve_uid
  resolve_uid-Logs name = Logs-if _ _ _ (Logs-raise _) (Logs-ask _ _ _ (λ _. tt))

  pub resolve_gid-Logs : (name : Text) → Logs IsReadOnly (resolve_gid env name)
  unfolding resolve_gid
  resolve_gid-Logs name = Logs-if _ _ _ (Logs-raise _) (Logs-ask _ _ _ (λ _. tt))

  pub resolve_each-Logs :
      (resolve : Text → Log → Result ℕ × Log) (name : Option Text)
      → ((n : Text) → Logs IsReadOnly (resolve n))
      → Logs IsReadOnly (resolve_each resolve name)
  unfolding resolve_each
  resolve_each-Logs resolve none k = Logs-pure none
  resolve_each-Logs resolve (some n) k = Logs-bind _ _ (k n) (λ a. Logs-pure (some a))

  apply-dry_run :
      (path : FilePath) (mode : Option Text) (default : ℕ) (owner group : Option Text)
      → Logs IsReadOnly (apply env path mode default owner group true)
  unfolding apply apply_existing apply_mode apply_owner apply_ids
  apply-dry_run path mode default owner group = Logs-bind _ _ (Logs-observe _ _ (λ _. tt)) λ exists.
      Logs-when exists _ (
        Logs-bind _ _ (desired_mode-Logs mode default) λ desired.
          Logs-bind _ _ (Logs-ask _ _ _ (λ _. tt)) λ metadata.
            Logs-bind _ _ (Logs-when _ _ (Logs-pure tt)) λ _. Logs-when _ _ (
              Logs-bind _ _ (resolve_each-Logs _ owner resolve_uid-Logs) λ uid.
                Logs-bind _ _ (resolve_each-Logs _ group resolve_gid-Logs)
                  λ gid. Logs-when _ _ (Logs-pure tt)))

  apply_key-Logs :
      (cert : CertificateConfig) (path : Option FilePath)
      → Logs IsReadOnly (apply_key env cert path true)
  unfolding apply_key
  apply_key-Logs cert none = Logs-pure tt
  apply_key-Logs cert (some path) =
      apply-dry_run path cert.key_mode 0o600 cert.key_owner cert.key_group

  -- In a dry run permissions are only read.
  pub ensure_permissions-dry_run :
      (cert : CertificateConfig) → Logs IsReadOnly (ensure_permissions env cert true)
  unfolding ensure_permissions
  ensure_permissions-dry_run cert =
      Logs-bind _ _ (apply_key-Logs cert cert.key_path)
        λ _. apply-dry_run cert.cert_path cert.cert_mode 0o644 cert.cert_owner cert.cert_group
