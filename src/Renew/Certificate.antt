-- ===== src/Renew/Certificate.antt =====
-- src/renew.rs, `renew_certificate`: whether a certificate is renewed, with which key, and the state
-- that is left.
use certforge.Base.{Text, Dict, get, Bool, true, false, Option, none, some, List, if◌then◌else◌}
use certforge.Error.{Result, ok, err, panic}
use certforge.Config.{FilePath, CertificateConfig, Config}
use certforge.Crates.{Crates}
use certforge.Certs.{CertInfo, expires_within_days}
use certforge.Certs.Load.{load_cert}
use certforge.State.{PendingRotation, State, Json, ttl_expired}
use certforge.Exec.{pure, lift, capture, ◌>>=◌}
use certforge.World.{read_clock, Io, Env, observe}
use certforge.Renew.{KeyResult, determine_key}
use certforge.Renew.Build.{Instance, solver_names, build_solvers}
use certforge.Renew.Issue.{issue}

-- the run's state, and whether the certificate was renewed
abbrev pub Renewal : Type 0
Renewal = State × Result Bool

abbrev pub renewed : Result (Unit {0}) → Result Bool
renewed (ok _) = ok true
renewed (err e) = err e
renewed panic = panic

module _ (crates : Crates) (env : Env) where
  -- whether there is no pending rotation that still has to wait
  unfoldable pub may_go_on : Option PendingRotation → Io Bool
  may_go_on none = pure true
  may_go_on (some pending) = do now ← observe read_clock env.clock; pure (ttl_expired pending now)

  -- whether the certificate that was read is due; one that cannot be read is
  unfoldable pub is_due : CertificateConfig → Result CertInfo → Io Bool
  is_due cert (ok info) = do
    _ ← observe read_clock env.clock
    now ← observe read_clock env.clock
    pure (expires_within_days info now cert.renew_before_days)
  is_due cert (err e) = pure true
  is_due cert panic = lift panic

  unfoldable pub needs_renewal : CertificateConfig → Bool → Io Bool
  needs_renewal cert true = pure true
  needs_renewal cert false = do
    loaded ← capture (load_cert crates env cert.cert_path)
    is_due cert loaded

  module _ (c : Config) (json : Json) (state_dir : FilePath) (dry_run : Bool) where
    -- what follows `determine_key`
    unfoldable pub with_key :
        CertificateConfig
        → List Text
        → Dict Instance
        → State × Result (Option KeyResult)
        → Io Renewal
    with_key cert names solvers (s, err e) = pure (s, err e)
    with_key cert names solvers (s, panic) = lift panic
    with_key cert names solvers (s, ok none) = pure (s, ok false)
    with_key cert names solvers (s, ok (some key_result)) =
        if dry_run then pure (s, ok true) else (do
          issued ← capture (issue crates env c cert names solvers dry_run key_result)
          pure (s, renewed issued))

    unfoldable pub with_solvers :
        CertificateConfig → State → List Text → Result (Dict Instance) → Io Renewal
    with_solvers cert s names (err e) = pure (s, err e)
    with_solvers cert s names panic = lift panic
    with_solvers cert s names (ok solvers) = do
      outcome ← determine_key crates env c json cert state_dir dry_run s
      with_key cert names solvers outcome

    unfoldable pub with_names : CertificateConfig → State → Result (List Text) → Io Renewal
    with_names cert s (err e) = pure (s, err e)
    with_names cert s panic = lift panic
    with_names cert s (ok names) = with_solvers cert s names (build_solvers c names)

    unfoldable pub if_due : CertificateConfig → State → Bool → Io Renewal
    if_due cert s false = pure (s, ok false)
    if_due cert s true = with_names cert s (solver_names c cert)

    unfoldable pub if_waited : CertificateConfig → State → Bool → Bool → Io Renewal
    if_waited cert s force false = pure (s, ok false)
    if_waited cert s force true = do due ← needs_renewal cert force; if_due cert s due

    unfoldable pub renew_certificate : CertificateConfig → State → Bool → Io Renewal
    renew_certificate cert s force = do
      waited ← may_go_on (get cert.name s.pending_rotations)
      if_waited cert s force waited
