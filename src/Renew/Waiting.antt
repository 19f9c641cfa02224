-- ===== src/Renew/Waiting.antt =====
-- How long a rotation waits, and what a deferred renewal leaves behind.
use certforge.Base.{
  All, any, ℕ, ◌≤◌, Bool, true, false, get, get-insert, same_refl, subst, ◌≢◌, Option, none, some,
  List, [], ◌∷◌, ◌≡◌, refl, ap, ◌∙◌, arith, if◌then◌else◌,
}
use certforge.Error.{Result, ok, err, panic}
use certforge.Config.{FilePath, DaneConfig, CertificateConfig, Config}
use certforge.Crates.{Crates}
use certforge.Keys.Pair.{CertKeyPair}
use certforge.State.{PendingRotation, State, Json}
use certforge.Exec.{pure, ◌>>◌}
use certforge.Exec.Logs.{bind-ok, capture-ok, pure-ok, lift-ok}
use certforge.World.{Io, Log, Env}
use certforge.Renew.{
  pre_published, max, pre_publish_entry, pre_publish_from, pre_publish_dane, load_pending,
  or_generate, load_or_generate, store_and_publish, record_rotation, with_pending, pre_publish,
  rotate, fresh_key, key_for, determine_key,
}

-- no record that is published beforehand has a longer TTL
abbrev pub Bounds : ℕ → List DaneConfig → Type 0
Bounds n = All (λ d. pre_published d ≡ true → d.ttl ≤ n)

max-le : (a b : ℕ) → (a ≤ max a b) × (b ≤ max a b)
max-le a b = ground arith

entry-le :
    (dane : DaneConfig) (m n : ℕ) (entries : List DaneConfig) (entry : Io (Unit {0}))
    (rest skipped : Io ℕ) (b d : Bool) (h : Log)
    → pre_published dane ≡ b
    → ((t : Log) → (rest t).0 ≡ ok n → (max m dane.ttl ≤ n) × Bounds n entries)
    → ((t : Log) → (skipped t).0 ≡ ok n → (m ≤ n) × Bounds n entries)
    → ((if b then (if d then rest else (entry >> rest)) else skipped) h).0 ≡ ok n
    → (m ≤ n) × Bounds n (dane ∷ entries)
entry-le dane m n entries entry rest skipped true true h q kr ks e =
    let (a, b) = kr h e in let (c, d) = max-le m dane.ttl in (omega arith, (λ _. omega arith, b))
entry-le dane m n entries entry rest skipped true false h q kr ks e =
    let (_, _, f) = bind-ok entry (λ _. rest) h e in
    let (a, b) = kr _ f in let (c, d) = max-le m dane.ttl in (omega arith, (λ _. omega arith, b))
entry-le dane m n entries entry rest skipped false d h q kr ks e =
    let (a, b) = ks h e in (a, (λ p. absurd cc, b))

module _ (crates : Crates) (env : Env) where
  pre_publish_from-le :
      (config : Config) (new_key : CertKeyPair) (dry_run : Bool) (m n : ℕ)
      (entries : List DaneConfig) (h : Log)
      → (pre_publish_from crates env config new_key dry_run m entries h).0 ≡ ok n
      → (m ≤ n) × Bounds n entries
  unfolding pre_publish_from
  pre_publish_from-le config new_key dry_run m n [] h e =
      let same = pure-ok m h e in (omega arith, tt)
  pre_publish_from-le config new_key dry_run m n (dane ∷ entries) h e =
      entry-le dane m n entries (pre_publish_entry crates env config new_key dane)
        (pre_publish_from crates env config new_key dry_run (max m dane.ttl) entries)
        (pre_publish_from crates env config new_key dry_run m entries) (pre_published dane) dry_run
        h refl (λ t q. pre_publish_from-le config new_key dry_run (max m dane.ttl) n entries t q)
        (λ t q. pre_publish_from-le config new_key dry_run m n entries t q) e

  store_and_publish-le :
      (config : Config) (cert : CertificateConfig) (state_dir : FilePath) (new_key : CertKeyPair)
      (pending : PendingRotation) (h : Log)
      → (store_and_publish crates env config cert state_dir new_key false h).0 ≡ ok pending
      → Bounds pending.old_ttl cert.dane
  unfolding store_and_publish pre_publish_dane
  store_and_publish-le config cert state_dir new_key pending h e =
      let (_, _, a) = bind-ok _ _ h e in
      let (_, _, b) = bind-ok _ _ _ a in
      let (_, _, c) = bind-ok _ _ _ b in
      let (max_ttl, d, f) = bind-ok _ _ _ c in
      let (published_at, _, g) = bind-ok _ _ _ f in
      let built = pure-ok _ _ g in
      let (_, bound) = pre_publish_from-le config new_key false 0 max_ttl cert.dane _ d in
      subst (λ n. Bounds n cert.dane) (ap (λ p. p.old_ttl) built) bound

  load_pending-ne-none :
      (cert : CertificateConfig) (pending : PendingRotation) (h : Log)
      → (load_pending crates env cert pending h).0 ≢ ok none
  unfolding load_pending
  load_pending-ne-none cert pending h e =
      let (_, _, a) = bind-ok _ _ h e in
      let (_, _, b) = bind-ok _ _ _ a in let c = pure-ok _ _ b in cc

  or_generate-ne-none :
      (cert : CertificateConfig) (loaded : Result CertKeyPair) (h : Log)
      → (or_generate crates env cert loaded h).0 ≢ ok none
  unfolding or_generate
  or_generate-ne-none cert (ok pair) h e = let p = pure-ok _ _ e in cc
  or_generate-ne-none cert (err x) h e =
      let (_, _, a) = bind-ok _ _ h e in let p = pure-ok _ _ a in cc
  or_generate-ne-none cert panic h e = let p = lift-ok _ _ e in cc

  load_or_generate-ne-none :
      (cert : CertificateConfig) (h : Log) → (load_or_generate crates env cert h).0 ≢ ok none
  unfolding load_or_generate
  load_or_generate-ne-none cert h e =
      let (loaded, _, a) = bind-ok _ _ h e in or_generate-ne-none cert loaded _ a

  module _ (config : Config) (json : Json) (cert : CertificateConfig) (state_dir : FilePath) where
    -- The certificate waits, for no less than the TTL of any record published for the new key.
    abbrev pub Waits : State → Type 0
    Waits s =
        (pending : PendingRotation) × (get cert.name s.pending_rotations ≡ some pending)
        × Bounds pending.old_ttl cert.dane

    record_rotation-Waits :
        (s s' : State) (stored : Result PendingRotation) (h : Log)
        → ((pending : PendingRotation) → stored ≡ ok pending → Bounds pending.old_ttl cert.dane)
        → (record_rotation crates env json cert state_dir s stored h).0 ≡ ok (s', ok none)
        → Waits s'
    unfolding record_rotation with_pending
    record_rotation-Waits s s' (ok pending) h k e =
        let (saved, _, a) = bind-ok _ _ h e in
        let left = ap (λ x. x.0) (pure-ok _ _ a) in
        subst Waits left (
          pending,
          get-insert cert.name cert.name pending s.pending_rotations
              ∙ rw (same_refl cert.name) refl,
          k pending refl,
        )
    record_rotation-Waits s s' (err x) h k e = absurd (let p = pure-ok _ _ e in cc)
    record_rotation-Waits s s' panic h k e = absurd (let p = pure-ok _ _ e in cc)

    rotate-Waits :
        (s s' : State) (new_key : Result CertKeyPair) (h : Log)
        → (rotate crates env config json cert state_dir s false new_key h).0 ≡ ok (s', ok none)
        → Waits s'
    unfolding rotate pre_publish
    rotate-Waits s s' (err x) h e = absurd (let p = pure-ok _ _ e in cc)
    rotate-Waits s s' panic h e = absurd (let p = pure-ok _ _ e in cc)
    rotate-Waits s s' (ok new_key) h e = split (any pre_published cert.dane) e
      where
        split :
            (b : Bool)
            → ((if b
                  then pre_publish crates env config json cert state_dir s false new_key
                  else pure (s, ok (some (record { key = new_key; needs_save = true }))))
                h).0
              ≡ ok (s', ok none)
            → Waits s'
        split true e' =
            let (stored, a, b) = bind-ok _ _ h e' in
            record_rotation-Waits s s' stored _
              (λ pending q.
                store_and_publish-le config cert state_dir new_key pending h (capture-ok _ h a ∙ q))
              b
        split false e' = absurd (let p = pure-ok _ _ e' in cc)

    fresh_key-Waits :
        (s s' : State) (rotates : Bool) (h : Log)
        → (fresh_key crates env config json cert state_dir false s rotates h).0 ≡ ok (s', ok none)
        → Waits s'
    unfolding fresh_key
    fresh_key-Waits s s' true h e =
        let (new_key, _, a) = bind-ok _ _ h e in rotate-Waits s s' new_key _ a
    fresh_key-Waits s s' false h e =
        let (loaded, a, b) = bind-ok _ _ h e in
        let p = ap (λ x. x.1) (pure-ok _ _ b) in
        absurd (load_or_generate-ne-none cert h (capture-ok _ h a ∙ p))

    key_for-Waits :
        (s s' : State) (o : Option PendingRotation) (h : Log)
        → (key_for crates env config json cert state_dir false s o h).0 ≡ ok (s', ok none)
        → Waits s'
    unfolding key_for
    key_for-Waits s s' (some pending) h e =
        let (loaded, a, b) = bind-ok _ _ h e in
        let p = ap (λ x. x.1) (pure-ok _ _ b) in
        absurd (load_pending-ne-none cert pending h (capture-ok _ h a ∙ p))
    key_for-Waits s s' none h e = fresh_key-Waits s s' cert.rotate_key h e

    -- Where a renewal is deferred, outside of a dry run, the certificate has a pending rotation, whose
    -- waiting time is no less than the TTL of any of its records that are published beforehand.
    pub determine_key-Waits :
        (s s' : State) (h : Log)
        → (determine_key crates env config json cert state_dir false s h).0 ≡ ok (s', ok none)
        → Waits s'
    unfolding determine_key
    determine_key-Waits s s' h e = key_for-Waits s s' (get cert.name s.pending_rotations) h e
