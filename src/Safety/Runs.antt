-- ===== src/Safety/Runs.antt =====
-- A certificate's renewal, and a run over all certificates (src/renew.rs), and where they may panic.
use certforge.Base.{
  Text, Dict, get, All, All-imp, Bool, true, false, Option, none, some, List, [], ◌∷◌, ◌≡◌, refl,
}
use certforge.Error.{Result, ok, err, panic}
use certforge.Config.{FilePath, NamedHookConfig, CertificateConfig, Config}
use certforge.Crates.{Crates}
use certforge.Certs.{CertInfo}
use certforge.State.{PendingRotation, State, Json}
use certforge.Exec.Panics.{
  IsSafe, NeverPanics, NeverPanics-pure, NeverPanics-bind, NeverPanics-capture, NeverPanics-handle,
  NeverPanics-if, NeverPanics-when, panic_rules,
}
use certforge.Exec.Gives.{NeverPanics-bind-Gives}
use certforge.World.{Env}
use certforge.Renew.{KeyResult}
use certforge.Renew.Build.{Instance, build_solvers}
use certforge.Renew.Certificate.{
  Renewal, may_go_on, is_due, needs_renewal, with_key, with_solvers, with_names, if_due, if_waited,
  renew_certificate,
}
use certforge.Renew.Run.{
  Progress, add_renewal, fix_permissions, run_named_hooks, renew_one, renew_all, finish, run,
}
use certforge.Safety.Files.{
  load_cert-NeverPanics, ensure_permissions-NeverPanics, run_hooks-NeverPanics,
  open_account-NeverPanics, load-NeverPanics, save-NeverPanics,
}
use certforge.Safety.Builds.{
  build_solvers-IsSafe, build_solvers-AreReady, AreReady, IsConfigQuiet, solver_names-IsSafe,
}
use certforge.Safety.Keys.{AllNamed, determine_key-NeverPanics}
use certforge.Safety.Issues.{issue-NeverPanics}
use certforge.Renew.Steps.{determine_key-Settled}
use certforge.Renew.Effect.{Waited, may_go_on-Gives, renew_certificate-Settled}
use certforge.Config.Validate.{validate}
use certforge.Config.Validate.Correct.{validate_iff}
use certforge.Config.Validate.Spec.{IsValid}

module _ (crates : Crates) (env : Env) where
  may_go_on-NeverPanics :
      (pending : Option PendingRotation) → NeverPanics (may_go_on crates env pending)
  unfolding may_go_on
  may_go_on-NeverPanics none = search panic_rules
  may_go_on-NeverPanics (some pending) = search panic_rules

  is_due-NeverPanics :
      (cert : CertificateConfig) (loaded : Result CertInfo)
      → IsSafe loaded
      → NeverPanics (is_due crates env cert loaded)
  unfolding is_due
  is_due-NeverPanics cert (ok info) safe = search panic_rules
  is_due-NeverPanics cert (err e) safe = search panic_rules
  is_due-NeverPanics cert panic safe = absurd safe.not_panic

  needs_renewal-NeverPanics :
      (cert : CertificateConfig) (force : Bool) → NeverPanics (needs_renewal crates env cert force)
  unfolding needs_renewal
  needs_renewal-NeverPanics cert true = NeverPanics-pure true
  needs_renewal-NeverPanics cert false =
      NeverPanics-handle _ _ (load_cert-NeverPanics env crates cert.cert_path)
        (is_due-NeverPanics cert)

  module _ (c : Config) (json : Json) (state_dir : FilePath) (dry_run : Bool) where
    module _ (cert : CertificateConfig) (named : AllNamed cert.dane)
        (quiet : All (IsConfigQuiet env) c.solver) (s : State) where
      with_key-NeverPanics :
          (names : List Text) (solvers : Dict Instance)
          (outcome : State × Result (Option KeyResult))
          → AreReady env names solvers
          → IsSafe outcome.1
          → NeverPanics (with_key crates env c json state_dir dry_run cert names solvers outcome)
      unfolding with_key
      with_key-NeverPanics names solvers (s', err e) h safe = NeverPanics-pure _
      with_key-NeverPanics names solvers (s', panic) h safe = absurd safe.not_panic
      with_key-NeverPanics names solvers (s', ok none) h safe = NeverPanics-pure _
      with_key-NeverPanics names solvers (s', ok (some key)) h safe =
          NeverPanics-if _ _ _ (NeverPanics-pure _) (
            NeverPanics-bind _ _
              (NeverPanics-capture _
                (issue-NeverPanics crates env c cert names solvers dry_run key h named))
              λ issued. NeverPanics-pure _)

      with_solvers-NeverPanics :
          (names : List Text) (solvers : Result (Dict Instance))
          → ((built : Dict Instance) → solvers ≡ ok built → AreReady env names built)
          → IsSafe solvers
          → Waited crates env c json state_dir dry_run cert s
          → NeverPanics (with_solvers crates env c json state_dir dry_run cert s names solvers)
      unfolding with_solvers
      with_solvers-NeverPanics names (err e) h safe waited = NeverPanics-pure _
      with_solvers-NeverPanics names panic h safe waited = absurd safe.not_panic
      with_solvers-NeverPanics names (ok solvers) h safe waited =
          NeverPanics-bind-Gives _ _
            (determine_key-NeverPanics crates env c cert state_dir named json dry_run s)
            (determine_key-Settled crates env c json cert state_dir dry_run s waited)
            λ outcome k. with_key-NeverPanics names solvers outcome (h solvers refl) k.safe

      with_names-NeverPanics :
          (names : Result (List Text))
          → IsSafe names
          → Waited crates env c json state_dir dry_run cert s
          → NeverPanics (with_names crates env c json state_dir dry_run cert s names)
      unfolding with_names
      with_names-NeverPanics (err e) safe waited = NeverPanics-pure _
      with_names-NeverPanics panic safe waited = absurd safe.not_panic
      with_names-NeverPanics (ok names) safe waited =
          with_solvers-NeverPanics names (build_solvers c names)
            (λ built. build_solvers-AreReady c env names built quiet) (build_solvers-IsSafe c names)
            waited

      if_due-NeverPanics :
          (due : Bool)
          → Waited crates env c json state_dir dry_run cert s
          → NeverPanics (if_due crates env c json state_dir dry_run cert s due)
      unfolding if_due
      if_due-NeverPanics false waited = NeverPanics-pure _
      if_due-NeverPanics true waited = with_names-NeverPanics _ (solver_names-IsSafe c cert) waited

      if_waited-NeverPanics :
          (force waited : Bool)
          → (waited ≡ true → Waited crates env c json state_dir dry_run cert s)
          → NeverPanics (if_waited crates env c json state_dir dry_run cert s force waited)
      unfolding if_waited
      if_waited-NeverPanics force false k = NeverPanics-pure _
      if_waited-NeverPanics force true k =
          NeverPanics-bind _ _ (needs_renewal-NeverPanics cert force)
            λ due. if_due-NeverPanics due (k refl)

      renew_certificate-NeverPanics :
          (force : Bool)
          → NeverPanics (renew_certificate crates env c json state_dir dry_run cert s force)
      unfolding renew_certificate
      renew_certificate-NeverPanics force =
          NeverPanics-bind-Gives _ _ (may_go_on-NeverPanics _)
            (may_go_on-Gives crates env (get cert.name s.pending_rotations))
            λ waited k. if_waited-NeverPanics force waited k

    add_renewal-NeverPanics :
        (cert : CertificateConfig) (p : Progress) (r : Renewal)
        → IsSafe r.1
        → NeverPanics (add_renewal cert p r)
    unfolding add_renewal
    add_renewal-NeverPanics cert p (s, ok true) safe = NeverPanics-pure _
    add_renewal-NeverPanics cert p (s, ok false) safe = NeverPanics-pure _
    add_renewal-NeverPanics cert p (s, err e) safe = NeverPanics-pure _
    add_renewal-NeverPanics cert p (s, panic) safe = absurd safe.not_panic

    fix_permissions-NeverPanics :
        (filter : Option Text) (certs : List CertificateConfig)
        → NeverPanics (fix_permissions crates env filter dry_run certs)
    unfolding fix_permissions
    fix_permissions-NeverPanics filter [] = NeverPanics-pure tt
    fix_permissions-NeverPanics filter (cert ∷ certs) =
        NeverPanics-bind _ _
          (NeverPanics-when _ _ (
            NeverPanics-bind _ _
              (NeverPanics-capture _ (ensure_permissions-NeverPanics env cert dry_run))
              λ _. NeverPanics-pure tt))
          λ _. fix_permissions-NeverPanics filter certs

    run_named_hooks-NeverPanics :
        (pending_hooks : List Text) (hooks : List NamedHookConfig)
        → NeverPanics (run_named_hooks crates env pending_hooks dry_run hooks)
    unfolding run_named_hooks
    run_named_hooks-NeverPanics pending_hooks [] = NeverPanics-pure tt
    run_named_hooks-NeverPanics pending_hooks (named ∷ hooks) =
        NeverPanics-bind _ _
          (NeverPanics-when _ _
            (NeverPanics-bind _ _ (run_hooks-NeverPanics env dry_run _) λ _. NeverPanics-pure tt))
          λ _. run_named_hooks-NeverPanics pending_hooks hooks

    module _ (filter : Option Text) (force : Bool) where
      renew_one-NeverPanics :
          (cert : CertificateConfig) (p : Progress)
          → AllNamed cert.dane
          → All (IsConfigQuiet env) c.solver
          → NeverPanics (renew_one crates env c json state_dir filter force dry_run cert p)
      unfolding renew_one
      renew_one-NeverPanics cert p named quiet =
          NeverPanics-if _ _ _
            (NeverPanics-bind-Gives _ _
              (renew_certificate-NeverPanics cert named quiet p.state force)
              (renew_certificate-Settled crates env c json state_dir dry_run cert p.state force)
              λ r k. add_renewal-NeverPanics cert p r k.safe)
            (NeverPanics-pure p)

      renew_all-NeverPanics :
          (certs : List CertificateConfig) (p : Progress)
          → All (λ cert. AllNamed cert.dane) certs
          → All (IsConfigQuiet env) c.solver
          → NeverPanics (renew_all crates env c json state_dir filter force dry_run certs p)
      unfolding renew_all
      renew_all-NeverPanics [] p named quiet = NeverPanics-pure p
      renew_all-NeverPanics (cert ∷ certs) p named quiet =
          NeverPanics-bind _ _ (renew_one-NeverPanics cert p named.0 quiet)
            λ q. renew_all-NeverPanics certs q named.1 quiet

      finish-NeverPanics :
          (p : Progress) → NeverPanics (finish crates env c json state_dir filter force dry_run p)
      unfolding finish
      finish-NeverPanics p =
          NeverPanics-bind _ _
            (NeverPanics-when _ _ (run_named_hooks-NeverPanics p.pending_hooks c.hook))
            λ _. NeverPanics-when _ _ (save-NeverPanics env json p.state state_dir)

      pub IsValid-AllNamed :
          IsValid crates.is_ip c
          → All (λ (cert : CertificateConfig). AllNamed cert.dane) c.certificates
      IsValid-AllNamed valid =
          All-imp _ _ c.certificates (λ cert k. All-imp _ _ cert.dane (λ dane d. d.named) k.1.dane)
            valid.certificates

      -- A run over a configuration that passes `validate` never panics, whatever the world answers, the
      -- state file holds and the filter lets through, forced or not, in a dry run or not. It is
      -- assumed that either no TLS-ALPN-01 solver is configured, or no handshake that such a solver's
      -- server accepts names a server: the resolver's `blocking_read` may panic on one that does, and
      -- with `panic = "abort"` that ends the run.
      pub run-NeverPanics :
          validate crates.is_ip c ≡ ok tt
          → All (IsConfigQuiet env) c.solver
          → NeverPanics (run crates env c json state_dir filter force dry_run)
      unfolding run
      run-NeverPanics passes quiet =
          let valid = (validate_iff crates.is_ip c).0 passes in
          NeverPanics-bind _ _ (load-NeverPanics env json state_dir) λ s.
            NeverPanics-bind _ _ (fix_permissions-NeverPanics filter c.certificates) λ _.
              NeverPanics-bind _ _ (open_account-NeverPanics env crates c.acme) λ _.
                NeverPanics-bind _ _
                  (renew_all-NeverPanics c.certificates _ (IsValid-AllNamed valid) quiet)
                  finish-NeverPanics
