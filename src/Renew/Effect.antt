-- ===== src/Renew/Effect.antt =====
-- The state and the result that the renewal of one certificate leaves (src/renew.rs).
use certforge.Base.{
  Text, Dict, get, Bool, true, false, Option, none, some, List, ◌≡◌, refl, sym, ap, ◌∙◌, eq_of_some,
}
use certforge.Error.{eq_of_ok, Result, ok, err, panic}
use certforge.Config.{FilePath, CertificateConfig, Config}
use certforge.Crates.{Crates}
use certforge.State.{PendingRotation, State, Json, ttl_expired}
use certforge.Exec.{◌>>=◌}
use certforge.Exec.Panics.{IsSafe, IsSafe-ok, IsSafe-err}
use certforge.Exec.Gives.{
  Gives, Gives-pure, Gives-any, Gives-panic, Gives-bind, Gives-capture, Gives-if,
}
use certforge.World.{Log, Env, observe}
use certforge.Renew.{KeyResult}
use certforge.Renew.Build.{Instance, solver_names, build_solvers}
use certforge.Renew.Steps.{HasWaited, RotationStep, stay, Settled, determine_key-Settled}
use certforge.Renew.Certificate.{
  renewed, may_go_on, with_key, with_solvers, with_names, if_due, if_waited, renew_certificate,
}

renewed-IsSafe : (issued : Result (Unit {0})) → IsSafe issued → IsSafe (renewed issued)
renewed-IsSafe (ok u) safe = IsSafe-ok true
renewed-IsSafe (err e) safe = IsSafe-err e
renewed-IsSafe panic safe = absurd safe.not_panic

module _ (crates : Crates) (env : Env) where
  -- where the renewal goes on, a pending rotation has waited
  pub may_go_on-Gives :
      (o : Option PendingRotation)
      → Gives
          (λ waited. waited ≡ true → (p : PendingRotation) → o ≡ some p → HasWaited crates env p)
          (may_go_on crates env o)
  unfolding may_go_on observe ◌>>=◌
  may_go_on-Gives none = record { at = λ h a q e p r. absurd cc }
  may_go_on-Gives (some pending) = record {
    at = λ h a q e p r.
        (h, ap (λ x. ttl_expired x (env.clock h)) (sym (eq_of_some _ _ r)) ∙ eq_of_ok _ _ q ∙ e);
  }

  module _ (c : Config) (json : Json) (state_dir : FilePath) (dry_run : Bool)
      (cert : CertificateConfig) (s : State) where
    abbrev pub Waited : Type 0
    Waited =
        (p : PendingRotation) → get cert.name s.pending_rotations ≡ some p → HasWaited crates env p

    abbrev IsSettled : {A : Type 0} → State × Result A → Type 0
    IsSettled {A} = Settled crates env c json cert state_dir dry_run s

    with_key-Settled :
        (names : List Text) (solvers : Dict Instance) (outcome : State × Result (Option KeyResult))
        → IsSettled outcome
        → Gives IsSettled (with_key crates env c json state_dir dry_run cert names solvers outcome)
    unfolding with_key
    with_key-Settled names solvers (s', err e) k =
        Gives-pure _ (record { step = k.step; safe = IsSafe-err e })
    with_key-Settled names solvers (s', panic) k = absurd k.safe.not_panic
    with_key-Settled names solvers (s', ok none) k =
        Gives-pure _ (record { step = k.step; safe = IsSafe-ok false })
    with_key-Settled names solvers (s', ok (some key_result)) k =
        Gives-if dry_run _ _ (λ _. Gives-pure _ (record { step = k.step; safe = IsSafe-ok true }))
          λ _. Gives-bind _ _ (Gives-capture _) λ issued safe.
            Gives-pure _ (record { step = k.step; safe = renewed-IsSafe issued safe })

    with_solvers-Settled :
        (names : List Text) (solvers : Result (Dict Instance))
        → Waited
        → Gives IsSettled (with_solvers crates env c json state_dir dry_run cert s names solvers)
    unfolding with_solvers
    with_solvers-Settled names (ok solvers) waited =
        Gives-bind _ _ (determine_key-Settled crates env c json cert state_dir dry_run s waited)
          λ outcome k. with_key-Settled names solvers outcome k
    with_solvers-Settled names (err e) waited =
        Gives-pure _ (record { step = stay; safe = IsSafe-err e })
    with_solvers-Settled names panic waited = Gives-panic

    with_names-Settled :
        (names : Result (List Text))
        → Waited
        → Gives IsSettled (with_names crates env c json state_dir dry_run cert s names)
    unfolding with_names
    with_names-Settled (ok names) waited = with_solvers-Settled names (build_solvers c names) waited
    with_names-Settled (err e) waited = Gives-pure _ (record { step = stay; safe = IsSafe-err e })
    with_names-Settled panic waited = Gives-panic

    if_due-Settled :
        (due : Bool)
        → Waited
        → Gives IsSettled (if_due crates env c json state_dir dry_run cert s due)
    unfolding if_due
    if_due-Settled true waited = with_names-Settled (solver_names c cert) waited
    if_due-Settled false waited = Gives-pure _ (record { step = stay; safe = IsSafe-ok false })

    if_waited-Settled :
        (force waited : Bool)
        → (waited ≡ true → Waited)
        → Gives IsSettled (if_waited crates env c json state_dir dry_run cert s force waited)
    unfolding if_waited
    if_waited-Settled force true waited =
        Gives-bind _ _ (Gives-any _) (λ due _. if_due-Settled due (waited refl))
    if_waited-Settled force false waited =
        Gives-pure _ (record { step = stay; safe = IsSafe-ok false })

    pub renew_certificate-Settled :
        (force : Bool)
        → Gives IsSettled (renew_certificate crates env c json state_dir dry_run cert s force)
    unfolding renew_certificate
    renew_certificate-Settled force =
        Gives-bind _ _ (may_go_on-Gives (get cert.name s.pending_rotations))
          λ waited k. if_waited-Settled force waited k

    -- Whatever its result and even if it is forced, the renewal of a certificate leaves the pending
    -- rotations of the state as they are, or begins the certificate's rotation, or ends it: it begins one
    -- only where there is none, in no dry run, with the key in the certificate's own file, and ends
    -- one only once its TTL has passed by the clock.
    pub renew_certificate-RotationStep :
        (force : Bool) (h : Log) (s' : State) (r : Result Bool)
        → (renew_certificate crates env c json state_dir dry_run cert s force h).0 ≡ ok (s', r)
        → RotationStep crates env cert state_dir dry_run s s'
    renew_certificate-RotationStep force h s' r q =
        ((renew_certificate-Settled force).at h (s', r) q).step
