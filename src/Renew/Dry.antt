-- ===== src/Renew/Dry.antt =====
-- What the renewal of one certificate asks of the world in a dry run.
use certforge.Base.{Text, Dict, get, Bool, true, false, Option, none, some, List}
use certforge.Error.{Result, ok, err, panic}
use certforge.Config.{FilePath, CertificateConfig, Config}
use certforge.Crates.{Crates}
use certforge.Certs.{CertInfo}
use certforge.Certs.Load.{load_cert}
use certforge.State.{PendingRotation, State, Json}
use certforge.Exec.Logs.{Logs, Logs-pure, Logs-lift, Logs-bind, Logs-capture}
use certforge.World.{Env}
use certforge.World.Rules.{IsReadOnly, Logs-ask, Logs-observe}
use certforge.Renew.{KeyResult}
use certforge.Renew.Build.{Instance, solver_names, build_solvers}
use certforge.Renew.Rotation.{determine_key-dry_run}
use certforge.Renew.Certificate.{
  may_go_on, is_due, needs_renewal, with_key, with_solvers, with_names, if_due, if_waited,
  renew_certificate,
}

module _ (crates : Crates) (env : Env) where
  load_cert-Logs : (path : FilePath) → Logs IsReadOnly (load_cert crates env path)
  unfolding load_cert
  load_cert-Logs path = Logs-bind _ _ (Logs-ask _ _ _ (λ _. tt)) (λ _. Logs-lift _)

  may_go_on-Logs :
      (pending : Option PendingRotation) → Logs IsReadOnly (may_go_on crates env pending)
  unfolding may_go_on
  may_go_on-Logs none = Logs-pure true
  may_go_on-Logs (some pending) = Logs-bind _ _ (Logs-observe _ _ (λ _. tt)) (λ now. Logs-pure _)

  is_due-Logs :
      (cert : CertificateConfig) (loaded : Result CertInfo)
      → Logs IsReadOnly (is_due crates env cert loaded)
  unfolding is_due
  is_due-Logs cert (ok info) =
      Logs-bind _ _ (Logs-observe _ _ (λ _. tt))
        λ _. Logs-bind _ _ (Logs-observe _ _ (λ _. tt)) λ now. Logs-pure _
  is_due-Logs cert (err e) = Logs-pure true
  is_due-Logs cert panic = Logs-lift _

  needs_renewal-Logs :
      (cert : CertificateConfig) (force : Bool)
      → Logs IsReadOnly (needs_renewal crates env cert force)
  unfolding needs_renewal
  needs_renewal-Logs cert true = Logs-pure true
  needs_renewal-Logs cert false =
      Logs-bind _ _ (Logs-capture _ (load_cert-Logs cert.cert_path)) (is_due-Logs cert)

  module _ (c : Config) (json : Json) (state_dir : FilePath) (cert : CertificateConfig)
      (s : State) where
    with_key-Logs :
        (names : List Text) (solvers : Dict Instance) (outcome : State × Result (Option KeyResult))
        → Logs IsReadOnly (with_key crates env c json state_dir true cert names solvers outcome)
    unfolding with_key
    with_key-Logs names solvers (s', err e) = Logs-pure _
    with_key-Logs names solvers (s', panic) = Logs-lift _
    with_key-Logs names solvers (s', ok none) = Logs-pure _
    with_key-Logs names solvers (s', ok (some key)) = Logs-pure _

    with_solvers-Logs :
        (names : List Text) (solvers : Result (Dict Instance))
        → Logs IsReadOnly (with_solvers crates env c json state_dir true cert s names solvers)
    unfolding with_solvers
    with_solvers-Logs names (err e) = Logs-pure _
    with_solvers-Logs names panic = Logs-lift _
    with_solvers-Logs names (ok solvers) =
        Logs-bind _ _ (determine_key-dry_run crates env c json cert state_dir s)
          (with_key-Logs names solvers)

    with_names-Logs :
        (names : Result (List Text))
        → Logs IsReadOnly (with_names crates env c json state_dir true cert s names)
    unfolding with_names
    with_names-Logs (err e) = Logs-pure _
    with_names-Logs panic = Logs-lift _
    with_names-Logs (ok names) = with_solvers-Logs names (build_solvers c names)

    if_due-Logs :
        (due : Bool) → Logs IsReadOnly (if_due crates env c json state_dir true cert s due)
    unfolding if_due
    if_due-Logs false = Logs-pure _
    if_due-Logs true = with_names-Logs (solver_names c cert)

    if_waited-Logs :
        (force waited : Bool)
        → Logs IsReadOnly (if_waited crates env c json state_dir true cert s force waited)
    unfolding if_waited
    if_waited-Logs force false = Logs-pure _
    if_waited-Logs force true = Logs-bind _ _ (needs_renewal-Logs cert force) if_due-Logs

    -- In a dry run the renewal of a certificate only reads, forced or not: no order is placed, no
    -- challenge presented, and no key, certificate or record is written.
    pub renew_certificate-dry_run :
        (force : Bool)
        → Logs IsReadOnly (renew_certificate crates env c json state_dir true cert s force)
    unfolding renew_certificate
    renew_certificate-dry_run force =
        Logs-bind _ _ (may_go_on-Logs (get cert.name s.pending_rotations)) (if_waited-Logs force)
