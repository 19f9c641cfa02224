-- ===== src/Renew/Steps.antt =====
-- How the renewal of one certificate may change the pending rotations.
use certforge.Base.{any, Bool, true, false, get, Option, none, some, ◌≡◌, refl}
use certforge.Error.{Result, ok, err, panic}
use certforge.Config.{FilePath, CertificateConfig, Config}
use certforge.Crates.{Crates}
use certforge.Keys.Pair.{CertKeyPair}
use certforge.State.{PendingRotation, State, Json, ttl_expired}
use certforge.Exec.{pure}
use certforge.Exec.Panics.{IsSafe, IsSafe-ok, IsSafe-err}
use certforge.Exec.Gives.{
  Gives, Gives-pure, Gives-any, Gives-bind, Gives-capture, Gives-capture_of, Gives-if,
}
use certforge.World.{Log, Env}
use certforge.Renew.{
  pre_published, pending_path, without_pending, with_pending, to_save, store_and_publish, deferred,
  record_rotation, pre_publish, rotate, fresh_key, key_for, determine_key,
}

module _ (crates : Crates) (env : Env) where
  -- the TTL of the pending rotation has passed by the clock
  abbrev pub HasWaited : PendingRotation → Type 0
  HasWaited pending = (h : Log) × (ttl_expired pending (env.clock h) ≡ true)

  -- A certificate's rotation stays as it is, begins or ends. One begins where there is none, in no
  -- dry run, and its key is in the file that is the certificate's; one ends once its TTL has passed.
  pub data RotationStep (cert : CertificateConfig) (state_dir : FilePath) (dry_run : Bool)
      (s : State) : State → Type 0 where
    stay : RotationStep cert state_dir dry_run s s
    begin :
        (pending : PendingRotation)
        → get cert.name s.pending_rotations ≡ none
        → dry_run ≡ false
        → pending.pending_key_path ≡ pending_path state_dir cert
        → RotationStep cert state_dir dry_run s (with_pending cert pending s)
    complete :
        (pending : PendingRotation)
        → get cert.name s.pending_rotations ≡ some pending
        → HasWaited pending
        → RotationStep cert state_dir dry_run s (without_pending cert s)

  module _ (config : Config) (json : Json) (cert : CertificateConfig) (state_dir : FilePath)
      (dry_run : Bool) (s : State) where
    -- a step, and a result that is no panic
    pub record Settled {A : Type 0} (left : State × Result A) : Type 0 where
      pub step : RotationStep cert state_dir dry_run s left.0
      pub safe : IsSafe left.1

    store_and_publish-Gives :
        (new_key : CertKeyPair)
        → Gives
            (λ (p : PendingRotation). p.pending_key_path ≡ pending_path state_dir cert)
            (store_and_publish crates env config cert state_dir new_key dry_run)
    unfolding store_and_publish
    store_and_publish-Gives new_key = Gives-bind _ _ (Gives-any _) λ _ _.
        Gives-bind _ _ (Gives-any _) λ _ _. Gives-bind _ _ (Gives-any _) λ _ _.
          Gives-bind _ _ (Gives-any _) λ _ _. Gives-bind _ _ (Gives-any _) λ _ _. Gives-pure _ refl

    deferred-IsSafe : (r : Result (Unit {0})) → IsSafe r → IsSafe (deferred crates env r)
    deferred-IsSafe (ok u) safe = IsSafe-ok none
    deferred-IsSafe (err e) safe = IsSafe-err e
    deferred-IsSafe panic safe = absurd safe.not_panic

    record_rotation-Settled :
        (stored : Result PendingRotation)
        → get cert.name s.pending_rotations ≡ none
        → dry_run ≡ false
        → IsSafe stored
        → ((p : PendingRotation) → stored ≡ ok p → p.pending_key_path ≡ pending_path state_dir cert)
        → Gives Settled (record_rotation crates env json cert state_dir s stored)
    unfolding record_rotation
    record_rotation-Settled (ok p) free wet safe path =
        Gives-bind _ _ (Gives-capture _) λ saved safe.
          Gives-pure _
            (record { step = begin p free wet (path p refl); safe = deferred-IsSafe saved safe })
    record_rotation-Settled (err e) free wet safe path =
        Gives-pure _ (record { step = stay; safe = IsSafe-err e })
    record_rotation-Settled panic free wet safe path = absurd safe.not_panic

    rotate-Settled :
        (new_key : Result CertKeyPair)
        → get cert.name s.pending_rotations ≡ none
        → IsSafe new_key
        → Gives Settled (rotate crates env config json cert state_dir s dry_run new_key)
    unfolding rotate pre_publish
    rotate-Settled (ok pair) free safe =
        Gives-if (any pre_published cert.dane) _ (pure (s, ok (some (to_save true pair))))
          (λ _.
            Gives-if dry_run _ _ (λ _. Gives-pure _ (record { step = stay; safe = IsSafe-ok none }))
              λ wet.
                Gives-bind _ _ (Gives-capture_of _ (store_and_publish-Gives pair))
                  λ stored kept. record_rotation-Settled stored free wet kept.0 kept.1)
          (λ _. Gives-pure _ (record { step = stay; safe = IsSafe-ok _ }))
    rotate-Settled (err e) free safe = Gives-pure _ (record { step = stay; safe = IsSafe-err e })
    rotate-Settled panic free safe = absurd safe.not_panic

    fresh_key-Settled :
        (rotates : Bool)
        → get cert.name s.pending_rotations ≡ none
        → Gives Settled (fresh_key crates env config json cert state_dir dry_run s rotates)
    unfolding fresh_key
    fresh_key-Settled true free =
        Gives-bind _ _ (Gives-capture _) (λ new_key safe. rotate-Settled new_key free safe)
    fresh_key-Settled false free =
        Gives-bind _ _ (Gives-capture _)
          λ loaded safe. Gives-pure _ (record { step = stay; safe = safe })

    key_for-Settled :
        (o : Option PendingRotation)
        → get cert.name s.pending_rotations ≡ o
        → ((p : PendingRotation) → o ≡ some p → HasWaited p)
        → Gives Settled (key_for crates env config json cert state_dir dry_run s o)
    unfolding key_for
    key_for-Settled (some p) q waited =
        Gives-bind _ _ (Gives-capture _)
          λ loaded safe. Gives-pure _ (record { step = complete p q (waited p refl); safe = safe })
    key_for-Settled none q waited = fresh_key-Settled cert.rotate_key q

    pub determine_key-Settled :
        ((p : PendingRotation) → get cert.name s.pending_rotations ≡ some p → HasWaited p)
        → Gives Settled (determine_key crates env config json cert state_dir dry_run s)
    unfolding determine_key
    determine_key-Settled waited = key_for-Settled (get cert.name s.pending_rotations) refl waited
