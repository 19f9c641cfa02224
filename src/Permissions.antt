-- ===== src/Permissions.antt =====
-- src/permissions.rs: file mode, owner and group, on Unix.
pub mod Effects
pub mod Settled
use certforge.Base.{
  Text, ◌==◌, any, ℕ, ◌%◌, Bool, true, false, not, ◌&&◌, ◌||◌, is_some, Option, none, some, List,
  [], ◌∷◌, if◌then◌else◌,
}
use certforge.Error.{config, io, Result}
use certforge.Config.{FilePath, CertificateConfig}
use certforge.Config.Modes.{parse_mode}
use certforge.Exec.{pure, raise, lift, when, ◌>>=◌, ◌>>◌}
use certforge.World.{
  path_exists, read_metadata, set_permissions, change_owner, look_up_user, look_up_group, Io,
  Metadata, Env, ask, observe, attempt,
}

abbrev pub u32_max : ℕ
u32_max = 4294967295

-- `CString::new` refuses a text with a zero byte
abbrev has_nul : Text → Bool
has_nul = any (λ c. c == 0)

abbrev unwrap_or : Option ℕ → ℕ → ℕ
unwrap_or none d = d
unwrap_or (some n) d = n

-- `desired.is_some_and(|u| u != current)`
abbrev changed : Option ℕ → ℕ → Bool
changed none current = false
changed (some n) current = not (n == current)

unfoldable pub desired_mode : Option Text → ℕ → Io ℕ
desired_mode none default = pure default
desired_mode (some s) default = lift (parse_mode s)

-- `match owner { Some(name) => Some(resolve(name)?), None => None }`
unfoldable pub resolve_each : (Text → Io ℕ) → Option Text → Io (Option ℕ)
resolve_each resolve none = pure none
resolve_each resolve (some name) = do n ← resolve name; pure (some n)

module _ (env : Env) where
  unfoldable pub resolve_uid : Text → Io ℕ
  resolve_uid name =
      if has_nul name
      then raise (config "invalid user name '{name}'" (name ∷ []))
      else ask (look_up_user name) (λ h. env.user_id h name)
          (config "user '{name}' not found" (name ∷ []))

  unfoldable pub resolve_gid : Text → Io ℕ
  resolve_gid name =
      if has_nul name
      then raise (config "invalid group name '{name}'" (name ∷ []))
      else ask (look_up_group name) (λ h. env.group_id h name)
          (config "group '{name}' not found" (name ∷ []))

  unfoldable pub chown : FilePath → Option ℕ → Option ℕ → Io (Unit {0})
  chown path uid gid =
      if has_nul path
      then raise io
      else attempt env (change_owner path (unwrap_or uid u32_max) (unwrap_or gid u32_max)) io

  unfoldable pub apply_mode : FilePath → ℕ → ℕ → Bool → Io (Unit {0})
  apply_mode path current desired dry_run =
      when (not (current == desired))
        (if dry_run then pure tt else attempt env (set_permissions path desired) io)

  unfoldable pub apply_ids : FilePath → Metadata → Option ℕ → Option ℕ → Bool → Io (Unit {0})
  apply_ids path metadata uid gid dry_run =
      when (changed uid metadata.uid || changed gid metadata.gid)
        (if dry_run then pure tt else chown path uid gid)

  unfoldable pub apply_owner :
      FilePath → Metadata → Option Text → Option Text → Bool → Io (Unit {0})
  apply_owner path metadata owner group dry_run = do
    uid ← resolve_each resolve_uid owner
    gid ← resolve_each resolve_gid group
    apply_ids path metadata uid gid dry_run

  unfoldable pub apply_existing :
      FilePath → Option Text → ℕ → Option Text → Option Text → Bool → Io (Unit {0})
  apply_existing path mode default owner group dry_run = do
    desired ← desired_mode mode default
    metadata ← ask (read_metadata path) (λ h. env.metadata h path) io
    apply_mode path (metadata.mode % 4096) desired dry_run
    when (is_some owner || is_some group) (apply_owner path metadata owner group dry_run)

  unfoldable pub apply :
      FilePath → Option Text → ℕ → Option Text → Option Text → Bool → Io (Unit {0})
  apply path mode default owner group dry_run = do
    exists ← observe (path_exists path) (λ h. env.exists h path)
    when exists (apply_existing path mode default owner group dry_run)

  -- the key file, if the key is in a plain file
  unfoldable pub apply_key : CertificateConfig → Option FilePath → Bool → Io (Unit {0})
  apply_key cert none dry_run = pure tt
  apply_key cert (some key_path) dry_run =
      apply key_path cert.key_mode 0o600 cert.key_owner cert.key_group dry_run

  unfoldable pub ensure_permissions : CertificateConfig → Bool → Io (Unit {0})
  ensure_permissions cert dry_run = do
    apply_key cert cert.key_path dry_run
    apply cert.cert_path cert.cert_mode 0o644 cert.cert_owner cert.cert_group dry_run
