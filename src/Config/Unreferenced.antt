-- ===== src/Config/Unreferenced.antt =====
-- What refers to a definition (src/config.rs, the end of `Config::validate`).
use certforge.Base.{
  Text, same, same_iff, any, map, not, In, In-keep, In-of_keep, Any, Bool-cases, true, false, inl,
  inr, Option, none, some, List, [], ◌∷◌, ◌++◌, ◌≡◌, ◌⊎◌, ◌↔◌, refl, sym, ap, ◌∙◌, eq_of_some,
}
use certforge.Config.{
  SolverConfig, dns01, http01, tls_alpn01, DaneConfig, NamedHookConfig, CertificateConfig, Config,
}
use certforge.Config.Unused.{
  of_option, of_options, solver_dns, certificate_dns, certificate_solvers, certificate_hooks,
  referenced_dns, referenced_solvers, unreferenced, unused_dns, unused_solvers, unused_hooks,
}

abbrev Named : Text → SolverConfig → Type 0
Named name (dns01 dns _) = name ≡ dns
Named name (http01 _ _) = ⊥
Named name (tls_alpn01 _) = ⊥

-- a solver or a DANE entry refers to the DNS client
abbrev pub RefersToDns : Config → Text → Type 0
RefersToDns c name =
    Any (λ ((_, solver) : Text × SolverConfig). Named name solver) c.solver
    ⊎ Any (λ (cert : CertificateConfig). Any (λ (d : DaneConfig). name ≡ d.dns) cert.dane)
        c.certificates

-- a certificate or the default refers to the solver
abbrev pub RefersToSolver : Config → Text → Type 0
RefersToSolver c name =
    Any
      (λ (cert : CertificateConfig).
        (cert.solver ≡ some name)
        ⊎ ((names : List Text) × (cert.solvers ≡ some names) × In name names))
      c.certificates
    ⊎ (c.default_solver ≡ some name)

-- a certificate refers to the hook
abbrev pub RefersToHook : Config → Text → Type 0
RefersToHook c name = Any (λ (cert : CertificateConfig). In name cert.hooks) c.certificates

any-In : (name : Text) (names : List Text) → any (same name) names ≡ true → In name names
any-In name [] h = absurd cc
any-In name (x ∷ names) h = elim (Bool-cases (same name x)) [
  | inl e ↦ inl ((same_iff name x).0 e)
  | inr e ↦ inr (any-In name names (rw e at h))
]

any-of_In : (name : Text) (names : List Text) → In name names → any (same name) names ≡ true
any-of_In name [] m = absurd m
any-of_In name (x ∷ names) (inl e) = rw ((same_iff name x).1 e) refl
any-of_In name (x ∷ names) (inr m) = elim (Bool-cases (same name x)) [
  | inl e ↦ rw e refl
  | inr e ↦ rw (e, any-of_In name names m) refl
]

unreferenced_iff :
    (referenced names : List Text) (name : Text)
    → In name (unreferenced referenced names) ↔ (In name names × ¬ In name referenced)
unfolding unreferenced
unreferenced_iff referenced names name = (
  λ m.
      let (a, b) = In-of_keep (λ n. not (any (same n) referenced)) names {x = name} m in
      (a, λ r. absurd (true_ne (ap not (sym (any-of_In name referenced r)) ∙ b))),
  λ (a, b).
      In-keep (λ n. not (any (same n) referenced)) names {x = name} a
        (elim (Bool-cases (any (same name) referenced)) [
          | inl e ↦ absurd (b (any-In name referenced e))
          | inr e ↦ rw e refl
        ]),
)
  where
    true_ne : ¬ (false ≡ true)
    true_ne e = cc

In-append : (name : Text) (xs ys : List Text) → In name (xs ++ ys) ↔ (In name xs ⊎ In name ys)
In-append name [] ys = (inr, λ m. elim m [ inl a ↦ absurd a | inr b ↦ b ])
In-append name (x ∷ xs) ys = (
  λ m. elim m [
    | inl e ↦ inl (inl e)
    | inr r ↦ elim ((In-append name xs ys).0 r) [ inl a ↦ inl (inr a) | inr b ↦ inr b ]
  ],
  λ m. elim m [
    | inl a ↦ elim a [ inl e ↦ inl e | inr r ↦ inr ((In-append name xs ys).1 (inl r)) ]
    | inr b ↦ inr ((In-append name xs ys).1 (inr b))
  ],
)

-- what a list of two parts refers to
split_iff :
    {P Q : Type 0} (name : Text) (xs ys : List Text)
    → In name xs ↔ P
    → In name ys ↔ Q
    → In name (xs ++ ys) ↔ (P ⊎ Q)
split_iff name xs ys p q = (
  λ m. elim ((In-append name xs ys).0 m) [ inl a ↦ inl (p.0 a) | inr b ↦ inr (q.0 b) ],
  λ m. elim m [
    | inl a ↦ (In-append name xs ys).1 (inl (p.1 a))
    | inr b ↦ (In-append name xs ys).1 (inr (q.1 b))
  ],
)

In-map :
    {A : Type 0} (f : A → Text) (name : Text) (xs : List A)
    → In name (map f xs) ↔ Any (λ x. name ≡ f x) xs
In-map f name [] = (λ m. m, λ m. m)
In-map f name (x ∷ xs) = (
  λ m. elim m [ inl e ↦ inl e | inr r ↦ inr ((In-map f name xs).0 r) ],
  λ m. elim m [ inl e ↦ inl e | inr r ↦ inr ((In-map f name xs).1 r) ],
)

In-of_option : (name : Text) (o : Option Text) → In name (of_option o) ↔ (o ≡ some name)
In-of_option name none = (λ m. absurd m, λ e. absurd cc)
In-of_option name (some x) = (
  λ m. elim m [ inl e ↦ ap some (sym e) | inr r ↦ absurd r ],
  λ e. inl (sym (eq_of_some x name e)),
)

In-of_options :
    (name : Text) (o : Option (List Text))
    → In name (of_options o) ↔ ((names : List Text) × (o ≡ some names) × In name names)
In-of_options name none = (λ m. absurd m, λ (names, e, m). absurd cc)
In-of_options name (some xs) = (λ m. (xs, refl, m), λ (names, e, m). rw (eq_of_some xs names e) m)

solver_dns-In :
    (name : Text) (solvers : List (Text × SolverConfig))
    → In name (solver_dns solvers)
      ↔ Any (λ ((_, solver) : Text × SolverConfig). Named name solver) solvers
unfolding solver_dns
solver_dns-In name [] = (λ m. m, λ m. m)
solver_dns-In name ((_, dns01 dns _) ∷ solvers) = (
  λ m. elim m [ inl e ↦ inl e | inr r ↦ inr ((solver_dns-In name solvers).0 r) ],
  λ m. elim m [ inl e ↦ inl e | inr r ↦ inr ((solver_dns-In name solvers).1 r) ],
)
solver_dns-In name ((_, http01 _ _) ∷ solvers) = (
  λ m. inr ((solver_dns-In name solvers).0 m),
  λ m. elim m [ inl e ↦ absurd e | inr r ↦ (solver_dns-In name solvers).1 r ],
)
solver_dns-In name ((_, tls_alpn01 _) ∷ solvers) = (
  λ m. inr ((solver_dns-In name solvers).0 m),
  λ m. elim m [ inl e ↦ absurd e | inr r ↦ (solver_dns-In name solvers).1 r ],
)

certificate_dns-In :
    (name : Text) (certs : List CertificateConfig)
    → In name (certificate_dns certs)
      ↔ Any (λ (cert : CertificateConfig). Any (λ (d : DaneConfig). name ≡ d.dns) cert.dane) certs
unfolding certificate_dns
certificate_dns-In name [] = (λ m. m, λ m. m)
certificate_dns-In name (cert ∷ certs) =
    split_iff name _ _ (In-map (λ (d : DaneConfig). d.dns) name cert.dane)
      (certificate_dns-In name certs)

certificate_hooks-In :
    (name : Text) (certs : List CertificateConfig)
    → In name (certificate_hooks certs)
      ↔ Any (λ (cert : CertificateConfig). In name cert.hooks) certs
unfolding certificate_hooks
certificate_hooks-In name [] = (λ m. m, λ m. m)
certificate_hooks-In name (cert ∷ certs) =
    split_iff name _ _ (λ m. m, λ m. m) (certificate_hooks-In name certs)

certificate_solvers-In :
    (name : Text) (certs : List CertificateConfig)
    → In name (certificate_solvers certs)
      ↔ Any
          (λ (cert : CertificateConfig).
            (cert.solver ≡ some name)
            ⊎ ((names : List Text) × (cert.solvers ≡ some names) × In name names))
          certs
unfolding certificate_solvers
certificate_solvers-In name [] = (λ m. m, λ m. m)
certificate_solvers-In name (cert ∷ certs) =
    let one =
      split_iff name _ _ (In-of_option name cert.solver) (In-of_options name cert.solvers) in
    split_iff name (of_option cert.solver ++ of_options cert.solvers) _ one
      (certificate_solvers-In name certs)

unused_iff :
    {P : Type 0} (referenced names : List Text) (name : Text)
    → In name referenced ↔ P
    → In name (unreferenced referenced names) ↔ (In name names × ¬ P)
unused_iff referenced names name refers = (
  λ m. let (a, b) = (unreferenced_iff referenced names name).0 m in (a, λ p. b (refers.1 p)),
  λ (a, b). (unreferenced_iff referenced names name).1 (a, λ r. b (refers.0 r)),
)

module _ (c : Config) (name : Text) where
  -- A DNS client, a solver or a hook is warned about exactly if it is defined and nothing refers to it:
  -- no DNS-01 solver and no DANE entry to the client, no certificate and no default to the solver, no
  -- certificate to the hook.
  pub unused-In :
      (In name (unused_dns c) ↔ (In name (map (λ p. p.0) c.dns) × ¬ RefersToDns c name))
      × (In name (unused_solvers c) ↔ (In name (map (λ p. p.0) c.solver) × ¬ RefersToSolver c name))
      × (In name (unused_hooks c)
          ↔ (In name (map (λ (h : NamedHookConfig). h.name) c.hook) × ¬ RefersToHook c name))
  unfolding unused_dns unused_solvers unused_hooks referenced_dns referenced_solvers
  unused-In = (
    unused_iff _ _ name
        (split_iff name _ _ (solver_dns-In name c.solver) (certificate_dns-In name c.certificates)),
    unused_iff _ _ name (
        split_iff name _ _ (certificate_solvers-In name c.certificates)
          (In-of_option name c.default_solver)),
    unused_iff _ _ name (certificate_hooks-In name c.certificates),
  )
