-- ===== src/Safety/Turns.antt =====
-- How the renewal of one certificate ends (src/renew.rs, `renew_certificate`).
use certforge.Base.{
  Text, Dict, get, All, Bool, true, false, Option, none, some, List, [], ◌∷◌, ◌≡◌, refl,
}
use certforge.Error.{Result, ok, err, panic}
use certforge.Config.{FilePath, CertificateConfig, Config}
use certforge.Crates.{Crates}
use certforge.Certs.{CertInfo}
use certforge.Keys.Pair.{CertKeyPair}
use certforge.State.{PendingRotation, State, Json}
use certforge.Exec.Panics.{IsSafe}
use certforge.Exec.Gives.{
  Gives-any, Gives-capture, Succeeds, Succeeds-pure, Succeeds-bind, Succeeds-capture, Succeeds-if,
  Succeeds-observe,
}
use certforge.World.{Env}
use certforge.Renew.{
  KeyResult, record_rotation, pre_publish, rotate, fresh_key, key_for, determine_key,
}
use certforge.Renew.Build.{Instance, build_solvers}
use certforge.Renew.Certificate.{
  Renewal, may_go_on, is_due, needs_renewal, with_key, with_solvers, with_names, if_due, if_waited,
  renew_certificate,
}
use certforge.Renew.Effect.{Waited, may_go_on-Gives, renew_certificate-Settled}
use certforge.Renew.Steps.{determine_key-Settled}
use certforge.Renew.Run.{Progress, add_renewal, renew_one, renew_all}
use certforge.Safety.Files.{load_cert-NeverPanics, generate-NeverPanics, save-NeverPanics}
use certforge.Safety.Builds.{
  build_solvers-IsSafe, build_solvers-AreReady, AreReady, IsConfigQuiet, solver_names-IsSafe,
}
use certforge.Safety.Keys.{
  AllNamed, load_pending-NeverPanics, load_or_generate-NeverPanics, store_and_publish-NeverPanics,
}
use certforge.Safety.Issues.{issue-NeverPanics}

module _ (crates : Crates) (env : Env) where
  may_go_on-Succeeds : (o : Option PendingRotation) → Succeeds (may_go_on crates env o)
  unfolding may_go_on
  may_go_on-Succeeds none = Succeeds-pure true
  may_go_on-Succeeds (some p) =
      Succeeds-bind _ _ (Succeeds-observe _ _) (Gives-any _) (λ now _. Succeeds-pure _)

  is_due-Succeeds :
      (cert : CertificateConfig) (loaded : Result CertInfo)
      → IsSafe loaded
      → Succeeds (is_due crates env cert loaded)
  unfolding is_due
  is_due-Succeeds cert (ok info) safe =
      Succeeds-bind _ _ (Succeeds-observe _ _) (Gives-any _)
        λ _ _. Succeeds-bind _ _ (Succeeds-observe _ _) (Gives-any _) λ now _. Succeeds-pure _
  is_due-Succeeds cert (err e) safe = Succeeds-pure true
  is_due-Succeeds cert panic safe = absurd safe.not_panic

  needs_renewal-Succeeds :
      (cert : CertificateConfig) (force : Bool) → Succeeds (needs_renewal crates env cert force)
  unfolding needs_renewal
  needs_renewal-Succeeds cert true = Succeeds-pure true
  needs_renewal-Succeeds cert false =
      Succeeds-bind _ _ (Succeeds-capture _ (load_cert-NeverPanics env crates cert.cert_path))
        (Gives-capture _) (is_due-Succeeds cert)

  module _ (c : Config) (json : Json) (state_dir : FilePath) (dry_run : Bool) where
    module _ (cert : CertificateConfig) (named : AllNamed cert.dane)
        (quiet : All (IsConfigQuiet env) c.solver) (s : State) where
      record_rotation-Succeeds :
          (stored : Result PendingRotation)
          → Succeeds (record_rotation crates env json cert state_dir s stored)
      unfolding record_rotation
      record_rotation-Succeeds (ok p) =
          Succeeds-bind _ _ (Succeeds-capture _ (save-NeverPanics env json _ state_dir))
            (Gives-any _) λ saved _. Succeeds-pure _
      record_rotation-Succeeds (err e) = Succeeds-pure _
      record_rotation-Succeeds panic = Succeeds-pure _

      rotate-Succeeds :
          (new_key : Result CertKeyPair)
          → Succeeds (rotate crates env c json cert state_dir s dry_run new_key)
      unfolding rotate pre_publish
      rotate-Succeeds (ok pair) =
          Succeeds-if _ _ _
            (Succeeds-if _ _ _ (Succeeds-pure _) (
              Succeeds-bind _ _
                (Succeeds-capture _
                  (store_and_publish-NeverPanics crates env c cert state_dir named pair dry_run))
                (Gives-any _) λ stored _. record_rotation-Succeeds stored))
            (Succeeds-pure _)
      rotate-Succeeds (err e) = Succeeds-pure _
      rotate-Succeeds panic = Succeeds-pure _

      fresh_key-Succeeds :
          (rotates : Bool) → Succeeds (fresh_key crates env c json cert state_dir dry_run s rotates)
      unfolding fresh_key
      fresh_key-Succeeds true =
          Succeeds-bind _ _ (Succeeds-capture _ (generate-NeverPanics env cert.key_type))
            (Gives-any _) λ new_key _. rotate-Succeeds new_key
      fresh_key-Succeeds false =
          Succeeds-bind _ _ (Succeeds-capture _ (load_or_generate-NeverPanics crates env cert))
            (Gives-any _) λ loaded _. Succeeds-pure _

      key_for-Succeeds :
          (o : Option PendingRotation)
          → Succeeds (key_for crates env c json cert state_dir dry_run s o)
      unfolding key_for
      key_for-Succeeds (some p) =
          Succeeds-bind _ _ (Succeeds-capture _ (load_pending-NeverPanics crates env cert p))
            (Gives-any _) λ loaded _. Succeeds-pure _
      key_for-Succeeds none = fresh_key-Succeeds cert.rotate_key

      determine_key-Succeeds : Succeeds (determine_key crates env c json cert state_dir dry_run s)
      unfolding determine_key
      determine_key-Succeeds = key_for-Succeeds (get cert.name s.pending_rotations)

      with_key-Succeeds :
          (names : List Text) (solvers : Dict Instance)
          (outcome : State × Result (Option KeyResult))
          → AreReady env names solvers
          → IsSafe outcome.1
          → Succeeds (with_key crates env c json state_dir dry_run cert names solvers outcome)
      unfolding with_key
      with_key-Succeeds names solvers (s', err e) h safe = Succeeds-pure _
      with_key-Succeeds names solvers (s', panic) h safe = absurd safe.not_panic
      with_key-Succeeds names solvers (s', ok none) h safe = Succeeds-pure _
      with_key-Succeeds names solvers (s', ok (some key)) h safe =
          Succeeds-if _ _ _ (Succeeds-pure _) (
            Succeeds-bind _ _
              (Succeeds-capture _
                (issue-NeverPanics crates env c cert names solvers dry_run key h named))
              (Gives-any _) λ issued _. Succeeds-pure _)

      with_solvers-Succeeds :
          (names : List Text) (solvers : Result (Dict Instance))
          → ((built : Dict Instance) → solvers ≡ ok built → AreReady env names built)
          → IsSafe solvers
          → Waited crates env c json state_dir dry_run cert s
          → Succeeds (with_solvers crates env c json state_dir dry_run cert s names solvers)
      unfolding with_solvers
      with_solvers-Succeeds names (err e) h safe waited = Succeeds-pure _
      with_solvers-Succeeds names panic h safe waited = absurd safe.not_panic
      with_solvers-Succeeds names (ok solvers) h safe waited =
          Succeeds-bind _ _ determine_key-Succeeds
            (determine_key-Settled crates env c json cert state_dir dry_run s waited)
            λ outcome k. with_key-Succeeds names solvers outcome (h solvers refl) k.safe

      with_names-Succeeds :
          (names : Result (List Text))
          → IsSafe names
          → Waited crates env c json state_dir dry_run cert s
          → Succeeds (with_names crates env c json state_dir dry_run cert s names)
      unfolding with_names
      with_names-Succeeds (err e) safe waited = Succeeds-pure _
      with_names-Succeeds panic safe waited = absurd safe.not_panic
      with_names-Succeeds (ok names) safe waited =
          with_solvers-Succeeds names (build_solvers c names)
            (λ built. build_solvers-AreReady c env names built quiet) (build_solvers-IsSafe c names)
            waited

      if_due-Succeeds :
          (due : Bool)
          → Waited crates env c json state_dir dry_run cert s
          → Succeeds (if_due crates env c json state_dir dry_run cert s due)
      unfolding if_due
      if_due-Succeeds false waited = Succeeds-pure _
      if_due-Succeeds true waited = with_names-Succeeds _ (solver_names-IsSafe c cert) waited

      if_waited-Succeeds :
          (force waited : Bool)
          → (waited ≡ true → Waited crates env c json state_dir dry_run cert s)
          → Succeeds (if_waited crates env c json state_dir dry_run cert s force waited)
      unfolding if_waited
      if_waited-Succeeds force false k = Succeeds-pure _
      if_waited-Succeeds force true k =
          Succeeds-bind _ _ (needs_renewal-Succeeds cert force) (Gives-any _)
            λ due _. if_due-Succeeds due (k refl)

      pub renew_certificate-Succeeds :
          (force : Bool)
          → Succeeds (renew_certificate crates env c json state_dir dry_run cert s force)
      unfolding renew_certificate
      renew_certificate-Succeeds force =
          Succeeds-bind _ _ (may_go_on-Succeeds _)
            (may_go_on-Gives crates env (get cert.name s.pending_rotations))
            λ waited k. if_waited-Succeeds force waited k

    add_renewal-Succeeds :
        (cert : CertificateConfig) (p : Progress) (r : Renewal)
        → IsSafe r.1
        → Succeeds (add_renewal cert p r)
    unfolding add_renewal
    add_renewal-Succeeds cert p (s, ok true) safe = Succeeds-pure _
    add_renewal-Succeeds cert p (s, ok false) safe = Succeeds-pure _
    add_renewal-Succeeds cert p (s, err e) safe = Succeeds-pure _
    add_renewal-Succeeds cert p (s, panic) safe = absurd safe.not_panic

    module _ (filter : Option Text) (force : Bool) where
      renew_one-Succeeds :
          (cert : CertificateConfig) (p : Progress)
          → AllNamed cert.dane
          → All (IsConfigQuiet env) c.solver
          → Succeeds (renew_one crates env c json state_dir filter force dry_run cert p)
      unfolding renew_one
      renew_one-Succeeds cert p named quiet =
          Succeeds-if _ _ _
            (Succeeds-bind _ _ (renew_certificate-Succeeds cert named quiet p.state force)
              (renew_certificate-Settled crates env c json state_dir dry_run cert p.state force)
              λ r k. add_renewal-Succeeds cert p r k.safe)
            (Succeeds-pure p)

      pub renew_all-Succeeds :
          (certs : List CertificateConfig) (p : Progress)
          → All (λ cert. AllNamed cert.dane) certs
          → All (IsConfigQuiet env) c.solver
          → Succeeds (renew_all crates env c json state_dir filter force dry_run certs p)
      unfolding renew_all
      renew_all-Succeeds [] p named quiet = Succeeds-pure p
      renew_all-Succeeds (cert ∷ certs) p named quiet =
          Succeeds-bind _ _ (renew_one-Succeeds cert p named.0 quiet) (Gives-any _)
            λ q _. renew_all-Succeeds certs q named.1 quiet
