-- ===== src/Safety/Loop.antt =====
-- The loop of `run` over the certificates (src/renew.rs), one after the other.
use certforge.Base.{
  Text, All, Bool, Bool-cases, inl, inr, true, false, if_of_true, if_of_false, ap, Option, List, [],
  ◌∷◌, ◌++◌, ◌≡◌, refl, ◌∙◌,
}
use certforge.Error.{Result, ok, err, panic}
use certforge.Config.{FilePath, CertificateConfig, Config}
use certforge.Config.Validate.{validate}
use certforge.Config.Validate.Correct.{validate_iff}
use certforge.Crates.{Crates}
use certforge.State.{State, Json}
use certforge.Exec.{◌>>=◌}
use certforge.Exec.Panics.{IsSafe}
use certforge.Exec.Logs.{bind-rest}
use certforge.World.{Log, Io, Env}
use certforge.Renew.Certificate.{renew_certificate}
use certforge.Renew.Effect.{renew_certificate-Settled}
use certforge.Renew.Run.{Progress, is_chosen, add_renewal, renew_one, renew_all}
use certforge.Safety.Builds.{IsConfigQuiet}
use certforge.Safety.Keys.{AllNamed}
use certforge.Safety.Runs.{IsValid-AllNamed}
use certforge.Safety.Turns.{renew_certificate-Succeeds}

module _ (crates : Crates) (env : Env) (c : Config) (json : Json) (state_dir : FilePath)
    (filter : Option Text) (force dry_run : Bool) where
  abbrev renewal : CertificateConfig → Progress → Log → Result (State × Result Bool) × Log
  renewal cert p h = renew_certificate crates env c json state_dir dry_run cert p.state force h

  abbrev loop : List CertificateConfig → Progress → Log → Result Progress × Log
  loop = renew_all crates env c json state_dir filter force dry_run

  -- what the loop has after a certificate with the state and the result of its renewal
  abbrev pub after : CertificateConfig → Progress → State → Result Bool → Progress
  after cert p s (ok true) = record {
    state = s;
    dirty = true;
    pending_hooks = p.pending_hooks ++ cert.hooks;
  }
  after cert p s (ok false) = record { state = s; dirty = p.dirty; pending_hooks = p.pending_hooks }
  after cert p s (err e) = record { state = s; dirty = p.dirty; pending_hooks = p.pending_hooks }
  after cert p s panic = p

  -- Certificates are taken one after the other: those that the filter leaves out change nothing, and
  -- each of the others is renewed, from the state and the log that those before it left, to whatever
  -- result but a panic.
  pub data Rounds
      : (certs : List CertificateConfig) (p : Progress) (h : Log) (q : Progress) (t : Log)
        → Type 0 where
    no_more : (p : Progress) (h : Log) → Rounds [] p h p h
    left_out :
        (cert : CertificateConfig) (certs : List CertificateConfig) (p q : Progress) (h t : Log)
        → is_chosen filter cert.name ≡ false
        → Rounds certs p h q t
        → Rounds (cert ∷ certs) p h q t
    taken :
        (cert : CertificateConfig) (certs : List CertificateConfig) (p q : Progress) (h t : Log)
        (s : State) (r : Result Bool)
        → is_chosen filter cert.name ≡ true
        → (renewal cert p h).0 ≡ ok (s, r)
        → IsSafe r
        → Rounds certs (after cert p s r) (renewal cert p h).1 q t
        → Rounds (cert ∷ certs) p h q t

  add_renewal-after :
      (cert : CertificateConfig) (p : Progress) (s : State) (r : Result Bool) (h : Log)
      → IsSafe r
      → add_renewal cert p (s, r) h ≡ (ok (after cert p s r), h)
  unfolding add_renewal ◌>>=◌
  add_renewal-after cert p s (ok true) h safe = refl
  add_renewal-after cert p s (ok false) h safe = refl
  add_renewal-after cert p s (err e) h safe = refl
  add_renewal-after cert p s panic h safe = absurd safe.not_panic

  renew_one-chosen :
      (cert : CertificateConfig) (p : Progress) (h : Log) (s : State) (r : Result Bool)
      → is_chosen filter cert.name ≡ true
      → (renewal cert p h).0 ≡ ok (s, r)
      → IsSafe r
      → renew_one crates env c json state_dir filter force dry_run cert p h
        ≡ (ok (after cert p s r), (renewal cert p h).1)
  unfolding renew_one
  renew_one-chosen cert p h s r chosen ends safe =
      ap (λ (m : Io Progress). m h) (if_of_true _ _ chosen)
      ∙ bind-rest (renew_certificate crates env c json state_dir dry_run cert p.state force)
          (add_renewal cert p) h ends
      ∙ add_renewal-after cert p s r _ safe

  renew_one-left_out :
      (cert : CertificateConfig) (p : Progress) (h : Log)
      → is_chosen filter cert.name ≡ false
      → renew_one crates env c json state_dir filter force dry_run cert p h ≡ (ok p, h)
  unfolding renew_one ◌>>=◌
  renew_one-left_out cert p h left = ap (λ (m : Io Progress). m h) (if_of_false _ _ left)

  renew_all-next :
      (cert : CertificateConfig) (certs : List CertificateConfig) (p p' : Progress) (h h' : Log)
      → renew_one crates env c json state_dir filter force dry_run cert p h ≡ (ok p', h')
      → loop (cert ∷ certs) p h ≡ loop certs p' h'
  unfolding renew_all ◌>>=◌
  renew_all-next cert certs p p' h h' one = rw one refl

  loop-Rounds :
      (certs : List CertificateConfig) (p : Progress) (h : Log)
      → All (λ cert. AllNamed cert.dane) certs
      → All (IsConfigQuiet env) c.solver
      → (q : Progress) × (t : Log) × Rounds certs p h q t × (loop certs p h ≡ (ok q, t))
  unfolding renew_all ◌>>=◌
  loop-Rounds [] p h named quiet = (p, h, no_more p h, refl)
  loop-Rounds (cert ∷ certs) p h named quiet = elim (Bool-cases (is_chosen filter cert.name)) [
    | inl chosen ↦
        let ((s, r), ends) =
          (renew_certificate-Succeeds crates env c json state_dir dry_run cert named.0 quiet p.state
              force).at
            h in
        let safe =
          ((renew_certificate-Settled crates env c json state_dir dry_run cert p.state force).at h
            (s, r) ends).safe in
        let (q, t, rounds, e) =
          loop-Rounds certs (after cert p s r) (renewal cert p h).1 named.1 quiet in
        let one = renew_one-chosen cert p h s r chosen ends safe in
        (
          q,
          t,
          taken cert certs p q h t s r chosen ends safe rounds,
          renew_all-next cert certs p _ h _ one ∙ e,
        )
    | inr left ↦
        let (q, t, rounds, e) = loop-Rounds certs p h named.1 quiet in
        (
          q,
          t,
          left_out cert certs p q h t left rounds,
          renew_all-next cert certs p p h h (renew_one-left_out cert p h left) ∙ e,
        )
  ]

  -- Over a configuration that passes `validate`, where no TLS-ALPN-01 solver is configured or no
  -- handshake names a server, the loop ends well and takes every certificate in turn. One that the
  -- filter leaves out changes nothing. Each of the others is renewed from the state and the log that
  -- those before it left, whatever their results were, errors too, and never panics. Its state is kept
  -- on an error too, and only a renewal that is done marks the state as to be saved and adds the
  -- certificate's hooks.
  pub renew_all-Rounds :
      (p : Progress) (h : Log)
      → validate crates.is_ip c ≡ ok tt
      → All (IsConfigQuiet env) c.solver
      → (q : Progress) × (t : Log) × Rounds c.certificates p h q t
        × (renew_all crates env c json state_dir filter force dry_run c.certificates p h
            ≡ (ok q, t))
  renew_all-Rounds p h passes quiet =
      loop-Rounds c.certificates p h
        (IsValid-AllNamed crates env c json state_dir dry_run filter force
          ((validate_iff crates.is_ip c).0 passes))
        quiet
