-- ===== src/Renew/Reach.antt =====
-- What a run over several certificates may do to the pending rotations.
use certforge.Base.{
  Text, In, same, same_iff, Bool-cases, get, get-insert, get-remove, Bool, true, false, Option,
  some, inl, inr, List, [], ◌∷◌, ◌≡◌, ◌⊎◌, refl, sym, ap, subst, ◌∙◌, if_of_true, if_of_false,
  eq_of_some, ne_some,
}
use certforge.Error.{ok, err, panic}
use certforge.Config.{FilePath, CertificateConfig, Config}
use certforge.Crates.{Crates}
use certforge.State.{PendingRotation, State, Json}
use certforge.Exec.Gives.{Gives, Gives-pure, Gives-panic, Gives-bind, Gives-if, Gives-imp}
use certforge.World.{Log, Env}
use certforge.Renew.{pending_path, without_pending, with_pending}
use certforge.Renew.Steps.{HasWaited, RotationStep, stay, begin, complete}
use certforge.Renew.Effect.{renew_certificate-Settled}
use certforge.Renew.Certificate.{Renewal}
use certforge.Renew.Run.{is_chosen, Progress, add_renewal, renew_one, renew_all}

module _ (crates : Crates) (env : Env) (state_dir : FilePath) (filter : Option Text)
    (dry_run : Bool) where
  -- steps of certificates of the list that the filter lets through
  pub data Reach (certs : List CertificateConfig) : State → State → Type 0 where
    done : (s : State) → Reach certs s s
    next :
        (cert : CertificateConfig) {s s' t : State}
        → In cert certs
        → is_chosen filter cert.name ≡ true
        → RotationStep crates env cert state_dir dry_run s s'
        → Reach certs s' t
        → Reach certs s t

  abbrev pub pending_of : Text → State → Option PendingRotation
  pending_of name s = get name s.pending_rotations

  -- a rotation of the name that came from a step
  abbrev pub Began : List CertificateConfig → Text → PendingRotation → Type 0
  Began certs name pending =
      (dry_run ≡ false)
      × (cert : CertificateConfig) × In cert certs
      × (is_chosen filter cert.name ≡ true)
      × (cert.name ≡ name)
      × (pending.pending_key_path ≡ pending_path state_dir cert)

  -- no certificate that is chosen and has the name sees the rotation's TTL pass
  abbrev pub IsHeld : List CertificateConfig → Text → PendingRotation → Type 0
  IsHeld certs name pending =
      (cert : CertificateConfig)
      → In cert certs
      → is_chosen filter cert.name ≡ true
      → cert.name ≡ name
      → ¬ HasWaited crates env pending

  step-held :
      (certs : List CertificateConfig) (cert : CertificateConfig) (name : Text)
      (pending : PendingRotation) (s s' : State)
      → IsHeld certs name pending
      → In cert certs
      → is_chosen filter cert.name ≡ true
      → RotationStep crates env cert state_dir dry_run s s'
      → pending_of name s ≡ some pending
      → pending_of name s' ≡ some pending
  unfolding with_pending without_pending
  step-held certs cert name pending s s' held m chosen stay e = e
  step-held certs cert name pending s s' held m chosen (begin p free wet path) e =
      elim (Bool-cases (same cert.name name)) [
        | inl q ↦
            let eq = (same_iff cert.name name).0 q in
            absurd (ne_some (sym free ∙ ap (λ n. pending_of n s) eq ∙ e))
        | inr q ↦ get-insert cert.name name p s.pending_rotations ∙ if_of_false _ _ q ∙ e
      ]
  step-held certs cert name pending s s' held m chosen (complete p q waited) e =
      elim (Bool-cases (same cert.name name)) [
        | inl b ↦
            let eq = (same_iff cert.name name).0 b in
            absurd (
              held cert m chosen eq (
                subst (HasWaited crates env)
                  (eq_of_some p pending (sym q ∙ ap (λ n. pending_of n s) eq ∙ e)) waited))
        | inr b ↦ get-remove cert.name name s.pending_rotations ∙ if_of_false _ _ b ∙ e
      ]

  step-origin :
      (certs : List CertificateConfig) (cert : CertificateConfig) (name : Text)
      (pending : PendingRotation) (s s' : State)
      → In cert certs
      → is_chosen filter cert.name ≡ true
      → RotationStep crates env cert state_dir dry_run s s'
      → pending_of name s' ≡ some pending
      → (pending_of name s ≡ some pending) ⊎ Began certs name pending
  unfolding with_pending without_pending
  step-origin certs cert name pending s s' m chosen stay e = inl e
  step-origin certs cert name pending s s' m chosen (begin p free wet path) e =
      let at = get-insert cert.name name p s.pending_rotations in
      elim (Bool-cases (same cert.name name)) [
        | inl q ↦
            let same_pending = eq_of_some p pending (sym (at ∙ if_of_true _ _ q) ∙ e) in
            inr (
              wet,
              cert,
              m,
              chosen,
              (same_iff cert.name name).0 q,
              ap (λ x. x.pending_key_path) (sym same_pending) ∙ path,
            )
        | inr q ↦ inl (sym (at ∙ if_of_false _ _ q) ∙ e)
      ]
  step-origin certs cert name pending s s' m chosen (complete p q waited) e =
      let at = get-remove cert.name name s.pending_rotations in
      elim (Bool-cases (same cert.name name)) [
        | inl b ↦ absurd (ne_some (sym (at ∙ if_of_true _ _ b) ∙ e))
        | inr b ↦ inl (sym (at ∙ if_of_false _ _ b) ∙ e)
      ]

  Reach-held :
      (certs : List CertificateConfig) (name : Text) (pending : PendingRotation) (s t : State)
      → IsHeld certs name pending
      → Reach certs s t
      → pending_of name s ≡ some pending
      → pending_of name t ≡ some pending
  Reach-held certs name pending s t held (done _) e = e
  Reach-held certs name pending s t held (next cert {s'} m chosen step rest) e =
      Reach-held certs name pending s' t held rest
        (step-held certs cert name pending s s' held m chosen step e)

  Reach-origin :
      (certs : List CertificateConfig) (name : Text) (pending : PendingRotation) (s t : State)
      → Reach certs s t
      → pending_of name t ≡ some pending
      → (pending_of name s ≡ some pending) ⊎ Began certs name pending
  Reach-origin certs name pending s t (done _) e = inl e
  Reach-origin certs name pending s t (next cert {s'} m chosen step rest) e =
      elim (Reach-origin certs name pending s' t rest e) [
        | inl q ↦ step-origin certs cert name pending s s' m chosen step q
        | inr began ↦ inr began
      ]

  add_renewal-Gives :
      (cert : CertificateConfig) (p : Progress) (r : Renewal)
      → Gives (λ (q : Progress). q.state ≡ r.0) (add_renewal cert p r)
  unfolding add_renewal
  add_renewal-Gives cert p (s, ok true) = Gives-pure _ refl
  add_renewal-Gives cert p (s, ok false) = Gives-pure _ refl
  add_renewal-Gives cert p (s, err e) = Gives-pure _ refl
  add_renewal-Gives cert p (s, panic) = Gives-panic

  module _ (c : Config) (json : Json) (force : Bool) where
    renew_one-Gives :
        (certs : List CertificateConfig) (cert : CertificateConfig) (p : Progress)
        → In cert certs
        → Gives
            (λ (q : Progress). (t : State) → Reach certs q.state t → Reach certs p.state t)
            (renew_one crates env c json state_dir filter force dry_run cert p)
    unfolding renew_one
    renew_one-Gives certs cert p m =
        Gives-if (is_chosen filter cert.name) _ _
          (λ chosen.
            Gives-bind _ _
              (renew_certificate-Settled crates env c json state_dir dry_run cert p.state force)
              λ r k.
                Gives-imp _
                  (λ q e t rest. next cert m chosen k.step (subst (λ x. Reach certs x t) e rest))
                  (add_renewal-Gives cert p r))
          (λ _. Gives-pure p (λ t rest. rest))

    renew_all-Reach :
        (all certs : List CertificateConfig) (p : Progress)
        → ((cert : CertificateConfig) → In cert certs → In cert all)
        → Gives
            (λ (q : Progress). Reach all p.state q.state)
            (renew_all crates env c json state_dir filter force dry_run certs p)
    unfolding renew_all
    renew_all-Reach all [] p inside = Gives-pure p (done p.state)
    renew_all-Reach all (cert ∷ certs) p inside =
        Gives-bind _ _ (renew_one-Gives all cert p (inside cert (inl refl))) λ q k.
          Gives-imp _ (λ r. k r.state) (renew_all-Reach all certs q (λ x m. inside x (inr m)))

    -- Whatever happens in the renewals of a list of certificates, forced or not, a pending rotation
    -- outlives them as it is, unless a certificate of its name is chosen and its TTL has passed by the
    -- clock; and one that is pending after them was so before, or belongs to a chosen certificate of
    -- the list, with its key in that certificate's own file, and this was no dry run.
    pub renew_all-pending_of :
        (certs : List CertificateConfig) (p q : Progress) (name : Text) (pending : PendingRotation)
        (h : Log)
        → (renew_all crates env c json state_dir filter force dry_run certs p h).0 ≡ ok q
        → (IsHeld certs name pending
            → pending_of name p.state ≡ some pending
            → pending_of name q.state ≡ some pending)
          × (pending_of name q.state ≡ some pending
              → (pending_of name p.state ≡ some pending) ⊎ Began certs name pending)
    renew_all-pending_of certs p q name pending h e =
        let steps = (renew_all-Reach certs certs p (λ x m. m)).at h q e in
        (
          λ held before. Reach-held certs name pending p.state q.state held steps before,
          λ after. Reach-origin certs name pending p.state q.state steps after,
        )
