-- ===== src/Renew/Rotation.antt =====
-- What key determination does to the pending rotations and to the world.
use certforge.Base.{
  Text, same, Bool, true, false, get, get-remove, Option, none, some, ◌≡◌, sym, ap, ◌∙◌,
  if◌then◌else◌,
}
use certforge.Error.{Result, ok, err, panic}
use certforge.Config.{
  FilePath, KeyType, ecdsa_p256, ecdsa_p384, rsa2048, rsa4096, CertificateConfig, Config,
}
use certforge.Crates.{Crates}
use certforge.Keys.Pair.{CertKeyPair}
use certforge.Keys.{generate, load_pair}
use certforge.Credentials.{load_secret-IsReadOnly}
use certforge.State.{PendingRotation, State, Json}
use certforge.Exec.{capture}
use certforge.Exec.Logs.{
  Logs, Logs-pure, Logs-raise, Logs-lift, Logs-bind, Logs-capture, Logs-if, bind-ok, pure-ok,
}
use certforge.World.{Log, Env}
use certforge.World.Rules.{IsReadOnly, Logs-ask}
use certforge.Renew.{
  KeyResult, without_pending, load_pending, or_generate, load_or_generate, rotate, fresh_key,
  key_for, determine_key,
}

module _ (crates : Crates) (env : Env) where
  generate-Logs : (key_type : KeyType) → Logs IsReadOnly (generate env key_type)
  unfolding generate
  generate-Logs ecdsa_p256 = Logs-bind _ _ (Logs-ask _ _ _ (λ _. tt)) (λ _. Logs-pure _)
  generate-Logs ecdsa_p384 = Logs-bind _ _ (Logs-ask _ _ _ (λ _. tt)) (λ _. Logs-pure _)
  generate-Logs rsa2048 = Logs-raise _
  generate-Logs rsa4096 = Logs-raise _

  load_pending-Logs :
      (cert : CertificateConfig) (pending : PendingRotation)
      → Logs IsReadOnly (load_pending crates env cert pending)
  unfolding load_pending
  load_pending-Logs cert pending =
      Logs-bind _ _ (Logs-ask _ _ _ (λ _. tt)) λ _. Logs-bind _ _ (Logs-lift _) λ _. Logs-pure _

  or_generate-Logs :
      (cert : CertificateConfig) (loaded : Result CertKeyPair)
      → Logs IsReadOnly (or_generate crates env cert loaded)
  unfolding or_generate
  or_generate-Logs cert (ok pair) = Logs-pure _
  or_generate-Logs cert (err e) = Logs-bind _ _ (generate-Logs cert.key_type) (λ _. Logs-pure _)
  or_generate-Logs cert panic = Logs-lift _

  load_or_generate-Logs :
      (cert : CertificateConfig) → Logs IsReadOnly (load_or_generate crates env cert)
  unfolding load_or_generate load_pair
  load_or_generate-Logs cert =
      Logs-bind _ _
        (Logs-capture _ (
          Logs-bind _ _ (load_secret-IsReadOnly env cert.key_credential cert.key_path)
            λ _. Logs-lift _))
        (or_generate-Logs cert)

  module _ (config : Config) (json : Json) (cert : CertificateConfig) (state_dir : FilePath) where
    rotate-Logs :
        (s : State) (new_key : Result CertKeyPair)
        → Logs IsReadOnly (rotate crates env config json cert state_dir s true new_key)
    unfolding rotate
    rotate-Logs s (ok new_key) = Logs-if _ _ _ (Logs-pure _) (Logs-pure _)
    rotate-Logs s (err e) = Logs-pure _
    rotate-Logs s panic = Logs-pure _

    fresh_key-Logs :
        (s : State) (rotates : Bool)
        → Logs IsReadOnly (fresh_key crates env config json cert state_dir true s rotates)
    unfolding fresh_key
    fresh_key-Logs s true =
        Logs-bind _ _ (Logs-capture _ (generate-Logs cert.key_type)) (rotate-Logs s)
    fresh_key-Logs s false =
        Logs-bind _ _ (Logs-capture _ (load_or_generate-Logs cert)) (λ _. Logs-pure _)

    key_for-Logs :
        (s : State) (pending : Option PendingRotation)
        → Logs IsReadOnly (key_for crates env config json cert state_dir true s pending)
    unfolding key_for
    key_for-Logs s (some pending) =
        Logs-bind _ _ (Logs-capture _ (load_pending-Logs cert pending)) (λ _. Logs-pure _)
    key_for-Logs s none = fresh_key-Logs s cert.rotate_key

    -- In a dry run the choice of a key only reads: no key is stored and no record is published.
    pub determine_key-dry_run :
        (s : State) → Logs IsReadOnly (determine_key crates env config json cert state_dir true s)
    unfolding determine_key
    determine_key-dry_run s = key_for-Logs s (get cert.name s.pending_rotations)

    key_for-State :
        (dry_run : Bool) (s s' : State) (o : Option PendingRotation) (pending : PendingRotation)
        (r : Result (Option KeyResult)) (h : Log)
        → o ≡ some pending
        → (key_for crates env config json cert state_dir dry_run s o h).0 ≡ ok (s', r)
        → s' ≡ without_pending cert s
    unfolding key_for
    key_for-State dry_run s s' none pending r h q e = absurd cc
    key_for-State dry_run s s' (some p) pending r h q e =
        let (loaded, _, b) = bind-ok (capture (load_pending crates env cert p)) _ h e in
        ap (λ x. x.0) (sym (pure-ok (without_pending cert s, loaded) _ b))

    -- A pending rotation of the certificate is gone once its key was asked for, also if the key could
    -- not be read and in a dry run, and those of other certificates stay.
    pub determine_key-get :
        (dry_run : Bool) (s s' : State) (pending : PendingRotation) (r : Result (Option KeyResult))
        (h : Log)
        → get cert.name s.pending_rotations ≡ some pending
        → (determine_key crates env config json cert state_dir dry_run s h).0 ≡ ok (s', r)
        → (name : Text)
        → get name s'.pending_rotations
          ≡ (if same cert.name name then none else get name s.pending_rotations)
    unfolding determine_key without_pending
    determine_key-get dry_run s s' pending r h q e name =
        let left = key_for-State dry_run s s' _ pending r h q e in
        ap (λ x. get name x.pending_rotations) left ∙ get-remove cert.name name s.pending_rotations
