-- ===== src/Renew/Run.antt =====
-- src/renew.rs, `run`: all certificates of a run, its hooks and its state.
use certforge.Base.{
  Text, same, any, is_empty, Bool, true, false, not, Option, none, some, List, [], ◌∷◌, ◌++◌,
  if◌then◌else◌,
}
use certforge.Error.{ok, err, panic}
use certforge.Config.{FilePath, NamedHookConfig, CertificateConfig, Config}
use certforge.Crates.{Crates}
use certforge.Permissions.{ensure_permissions}
use certforge.Hooks.{run_hooks}
use certforge.Acme.Account.{open_account}
use certforge.State.{State, Json, load, save}
use certforge.Exec.{pure, lift, capture, when, ◌>>=◌, ◌>>◌}
use certforge.World.{Io, Env}
use certforge.Renew.Certificate.{Renewal, renew_certificate}

-- whether the filter lets the name through
unfoldable pub is_chosen : Option Text → Text → Bool
is_chosen none name = true
is_chosen (some filter) name = same name filter

-- what the loop carries: the state, whether it is to be saved, and the hooks to run
pub record Progress : Type 0 where
  pub state : State
  pub dirty : Bool
  pub pending_hooks : List Text

unfoldable pub add_renewal : CertificateConfig → Progress → Renewal → Io Progress
add_renewal cert p (s, ok true) =
    pure (record { state = s; dirty = true; pending_hooks = p.pending_hooks ++ cert.hooks })
add_renewal cert p (s, ok false) = pure (record p { state = s })
add_renewal cert p (s, err e) = pure (record p { state = s })
add_renewal cert p (s, panic) = lift panic

module _ (crates : Crates) (env : Env) where
  -- errors are logged only
  unfoldable pub fix_permissions : Option Text → Bool → List CertificateConfig → Io (Unit {0})
  fix_permissions filter dry_run [] = pure tt
  fix_permissions filter dry_run (cert ∷ certs) =
      when (is_chosen filter cert.name)
        (capture (ensure_permissions env cert dry_run) >>= λ _. pure tt)
      >> fix_permissions filter dry_run certs

  unfoldable pub run_named_hooks : List Text → Bool → List NamedHookConfig → Io (Unit {0})
  run_named_hooks pending_hooks dry_run [] = pure tt
  run_named_hooks pending_hooks dry_run (named ∷ hooks) =
      when (any (same named.name) pending_hooks)
        (run_hooks env dry_run (named.hook ∷ []) >>= λ _. pure tt)
      >> run_named_hooks pending_hooks dry_run hooks

  module _ (c : Config) (json : Json) (state_dir : FilePath) (filter : Option Text)
      (force dry_run : Bool) where
    unfoldable pub renew_one : CertificateConfig → Progress → Io Progress
    renew_one cert p =
        if is_chosen filter cert.name
        then (renew_certificate crates env c json state_dir dry_run cert p.state force
            >>= add_renewal cert p)
        else pure p

    unfoldable pub renew_all : List CertificateConfig → Progress → Io Progress
    renew_all [] p = pure p
    renew_all (cert ∷ certs) p = renew_one cert p >>= renew_all certs

    unfoldable pub finish : Progress → Io (Unit {0})
    finish p = do
      when (not (is_empty p.pending_hooks)) (run_named_hooks p.pending_hooks dry_run c.hook)
      when p.dirty (save env json p.state state_dir)

    unfoldable pub run : Io (Unit {0})
    run = do
      s ← load env json state_dir
      fix_permissions filter dry_run c.certificates
      open_account crates env c.acme
      p ← renew_all c.certificates (record { state = s; dirty = false; pending_hooks = [] })
      finish p
