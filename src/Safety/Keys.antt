-- ===== src/Safety/Keys.antt =====
-- The choice of a key and its storage (src/renew.rs, src/keys.rs), and where they may panic.
use certforge.Base.{Text, All, get, ℕ, Bool, true, false, Option, none, some, List, [], ◌∷◌, ◌≢◌}
use certforge.Error.{Result, ok, err, panic}
use certforge.Config.{FilePath, KeyType, DaneConfig, CertificateConfig, Config}
use certforge.Crates.{Crates}
use certforge.Keys.Pair.{CertKeyPair, to_pem}
use certforge.Keys.{load_pair}
use certforge.State.{PendingRotation, State, Json}
use certforge.Exec.Logs.{lift-ok}
use certforge.Exec.Panics.{
  IsSafe, NeverPanics, NeverPanics-pure, NeverPanics-lift, NeverPanics-bind, NeverPanics-bind_ok,
  NeverPanics-capture, NeverPanics-handle, NeverPanics-if, NeverPanics-map_err, NeverPanics-attempt,
  NeverPanics-observe, panic_rules,
}
use certforge.World.{Env}
use certforge.Renew
use certforge.Renew.{
  KeyResult, pre_published, pre_publish_entry, pre_publish_from, pre_publish_dane, load_pending,
  or_generate, load_or_generate, store_and_publish, record_rotation, pre_publish, rotate, fresh_key,
  key_for, determine_key, save_pem, save_key,
}
use certforge.Safety.Files.{
  load_secret-NeverPanics, make_parent-NeverPanics, encrypt_credential-NeverPanics,
  generate-NeverPanics, save-NeverPanics,
}
use certforge.Safety.Dns.{
  dns_client-IsSafe, load_tsig_signer-NeverPanics, connect_updater-NeverPanics,
  add_tlsa-NeverPanics, from_pem_or_der-IsSafe, compute_tlsa_from_key-IsSafe,
  first_record-compute_tlsa_from_key,
}

-- every entry has a name
abbrev pub AllNamed : List DaneConfig → Type 0
AllNamed = All (λ (d : DaneConfig). d.names ≢ [])

module _ (crates : Crates) (env : Env) where
  pre_publish_entry-NeverPanics :
      (c : Config) (pair : CertKeyPair) (dane : DaneConfig)
      → dane.names ≢ []
      → NeverPanics (pre_publish_entry crates env c pair dane)
  unfolding pre_publish_entry
  pre_publish_entry-NeverPanics c pair dane named =
      NeverPanics-bind_ok _ _ (NeverPanics-lift _ (compute_tlsa_from_key-IsSafe crates dane pair))
        λ records h q.
          NeverPanics-bind _ _
            (NeverPanics-lift _
              (first_record-compute_tlsa_from_key crates dane pair records named (lift-ok _ h q)))
            λ tlsa.
              NeverPanics-bind _ _ (NeverPanics-lift _ (dns_client-IsSafe c dane.dns)) λ dns_config.
                NeverPanics-bind _ _ (load_tsig_signer-NeverPanics env crates dns_config) λ _.
                  NeverPanics-bind _ _ (connect_updater-NeverPanics env dns_config)
                    λ _. add_tlsa-NeverPanics env crates dns_config dane tlsa

  pre_publish_from-NeverPanics :
      (c : Config) (pair : CertKeyPair) (dry_run : Bool) (m : ℕ) (entries : List DaneConfig)
      → AllNamed entries
      → NeverPanics (pre_publish_from crates env c pair dry_run m entries)
  unfolding pre_publish_from
  pre_publish_from-NeverPanics c pair dry_run m [] named = NeverPanics-pure m
  pre_publish_from-NeverPanics c pair dry_run m (dane ∷ entries) named =
      let rest =
        pre_publish_from-NeverPanics c pair dry_run (Renew.max m dane.ttl) entries named.1 in
      NeverPanics-if _ _ _
        (NeverPanics-if _ _ _ rest
          (NeverPanics-bind _ _ (pre_publish_entry-NeverPanics c pair dane named.0) (λ _. rest)))
        (pre_publish_from-NeverPanics c pair dry_run m entries named.1)

  pub load_pending-NeverPanics :
      (cert : CertificateConfig) (pending : PendingRotation)
      → NeverPanics (load_pending crates env cert pending)
  unfolding load_pending
  load_pending-NeverPanics cert pending = search (panic_rules, from_pem_or_der-IsSafe)

  or_generate-NeverPanics :
      (cert : CertificateConfig) (loaded : Result CertKeyPair)
      → IsSafe loaded
      → NeverPanics (or_generate crates env cert loaded)
  unfolding or_generate
  or_generate-NeverPanics cert (ok pair) safe = search panic_rules
  or_generate-NeverPanics cert (err e) safe = search (panic_rules, generate-NeverPanics)
  or_generate-NeverPanics cert panic safe = absurd safe.not_panic

  load_pair-NeverPanics :
      (credential path : Option FilePath) (key_type : KeyType)
      → NeverPanics (load_pair env crates credential path key_type)
  unfolding load_pair
  load_pair-NeverPanics credential path key_type =
      search (panic_rules, load_secret-NeverPanics, from_pem_or_der-IsSafe)

  pub load_or_generate-NeverPanics :
      (cert : CertificateConfig) → NeverPanics (load_or_generate crates env cert)
  unfolding load_or_generate
  load_or_generate-NeverPanics cert =
      NeverPanics-handle _ _ (load_pair-NeverPanics cert.key_credential cert.key_path cert.key_type)
        (or_generate-NeverPanics cert)

  module _ (c : Config) (cert : CertificateConfig) (state_dir : FilePath)
      (named : AllNamed cert.dane) where
    pub store_and_publish-NeverPanics :
        (pair : CertKeyPair) (dry_run : Bool)
        → NeverPanics (store_and_publish crates env c cert state_dir pair dry_run)
    unfolding store_and_publish pre_publish_dane
    store_and_publish-NeverPanics pair dry_run =
        NeverPanics-bind _ _ (NeverPanics-attempt env _ _) λ _.
          NeverPanics-bind _ _ (NeverPanics-attempt env _ _) λ _.
            NeverPanics-bind _ _ (NeverPanics-attempt env _ _) λ _.
              NeverPanics-bind _ _ (pre_publish_from-NeverPanics c pair dry_run 0 cert.dane named)
                λ ttl. NeverPanics-bind _ _ (NeverPanics-observe _ _) λ now. NeverPanics-pure _

    module _ (json : Json) where
      record_rotation-NeverPanics :
          (s : State) (stored : Result PendingRotation)
          → IsSafe stored
          → NeverPanics (record_rotation crates env json cert state_dir s stored)
      unfolding record_rotation
      record_rotation-NeverPanics s (ok pending) safe = search (panic_rules, save-NeverPanics)
      record_rotation-NeverPanics s (err e) safe = search panic_rules
      record_rotation-NeverPanics s panic safe = absurd safe.not_panic

      rotate-NeverPanics :
          (s : State) (dry_run : Bool) (new_key : Result CertKeyPair)
          → IsSafe new_key
          → NeverPanics (rotate crates env c json cert state_dir s dry_run new_key)
      unfolding rotate pre_publish
      rotate-NeverPanics s dry_run (ok pair) safe =
          NeverPanics-if _ _ _
            (NeverPanics-if _ _ _ (NeverPanics-pure _) (
              NeverPanics-handle _ _ (store_and_publish-NeverPanics pair dry_run)
                (record_rotation-NeverPanics s)))
            (NeverPanics-pure _)
      rotate-NeverPanics s dry_run (err e) safe = search panic_rules
      rotate-NeverPanics s dry_run panic safe = absurd safe.not_panic

      fresh_key-NeverPanics :
          (dry_run : Bool) (s : State) (rotates : Bool)
          → NeverPanics (fresh_key crates env c json cert state_dir dry_run s rotates)
      unfolding fresh_key
      fresh_key-NeverPanics dry_run s true =
          NeverPanics-handle _ _ (generate-NeverPanics env cert.key_type)
            (rotate-NeverPanics s dry_run)
      fresh_key-NeverPanics dry_run s false =
          NeverPanics-bind _ _ (NeverPanics-capture _ (load_or_generate-NeverPanics cert))
            λ r. NeverPanics-pure _

      key_for-NeverPanics :
          (dry_run : Bool) (s : State) (pending : Option PendingRotation)
          → NeverPanics (key_for crates env c json cert state_dir dry_run s pending)
      unfolding key_for
      key_for-NeverPanics dry_run s (some pending) =
          NeverPanics-bind _ _ (NeverPanics-capture _ (load_pending-NeverPanics cert pending))
            λ r. NeverPanics-pure _
      key_for-NeverPanics dry_run s none = fresh_key-NeverPanics dry_run s cert.rotate_key

      pub determine_key-NeverPanics :
          (dry_run : Bool) (s : State)
          → NeverPanics (determine_key crates env c json cert state_dir dry_run s)
      unfolding determine_key
      determine_key-NeverPanics dry_run s =
          key_for-NeverPanics dry_run s (get cert.name s.pending_rotations)

  save_pem-NeverPanics :
      (pem : Text) (credential path : Option FilePath)
      → NeverPanics (save_pem crates env pem credential path)
  unfolding save_pem
  save_pem-NeverPanics pem (some cred_path) path =
      NeverPanics-map_err _ _ (encrypt_credential-NeverPanics env pem cred_path)
  save_pem-NeverPanics pem none (some key_path) = search (panic_rules, make_parent-NeverPanics)
  save_pem-NeverPanics pem none none = search panic_rules

  pub save_key-NeverPanics :
      (pair : CertKeyPair) (cert : CertificateConfig) → NeverPanics (save_key crates env pair cert)
  unfolding save_key
  save_key-NeverPanics pair cert =
      save_pem-NeverPanics (to_pem crates pair) cert.key_credential cert.key_path
