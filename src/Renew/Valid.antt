-- ===== src/Renew/Valid.antt =====
-- The solvers of a certificate of a valid configuration.
use certforge.Base.{
  true, get, sym, All-imp, get-insert, same, same_iff, eq_of_some, is_some, subst, Bool, Text, Dict,
  In, In-of_get, insert, contains_key, Bool-cases, ℕ, ◌+◌, All, All-In, inl, inr, Option, none,
  some, List, [], ◌∷◌, ◌≡◌, refl, ◌∙◌, if_of_true, if_of_false,
}
use certforge.Error.{ok}
use certforge.Config.{
  FilePath, SocketAddr, OneOrMany, to_vec, solver_for_domain, SolverConfig, dns01, http01,
  tls_alpn01, CertificateConfig, Config, dns_client, solver_config,
}
use certforge.Config.Validate.Spec.{IsDefined, IsSolverValid, AllSolved, IsValid}
use certforge.Solver.Server.{new_memory}
use certforge.Solver.Any.{
  AnySolver, dns01_solver, webroot_solver, standalone_solver, tls_alpn_solver,
}
use certforge.Renew.Build.{
  Instance, http01_from, new_solver, build_from, build_solvers, names_from, solver_names,
}
use certforge.Safety.Lookups.{Has}
use certforge.Safety.Builds.{build_solvers-All}

module _ (c : Config) where
  -- the solver is what its configuration says
  abbrev pub Implements : SolverConfig → AnySolver → Type 0
  Implements (dns01 dns delay) (dns01_solver solver) =
      (get dns c.dns ≡ some solver.dns_config) × (solver.delay ≡ delay)
  Implements (http01 listen (some dir)) (webroot_solver webroot) = webroot ≡ dir
  Implements (http01 (some addrs) none) (standalone_solver listen) = listen ≡ to_vec addrs
  Implements (tls_alpn01 addrs) (tls_alpn_solver listen) = listen ≡ to_vec addrs
  Implements _ _ = ⊥

  -- the solver with the name is the one that is configured under it, with nothing in memory
  abbrev pub IsConfigured : Text → Instance → Type 0
  IsConfigured name (solver, memory) =
      (config : SolverConfig) × (get name c.solver ≡ some config)
      × Implements config solver
      × (memory ≡ new_memory)

  -- each name is the one chosen for its domain
  abbrev pub AreChosen : CertificateConfig → ℕ → (domains names : List Text) → Type 0
  AreChosen cert i [] [] = Unit
  AreChosen cert i [] (name ∷ names) = ⊥
  AreChosen cert i (domain ∷ domains) [] = ⊥
  AreChosen cert i (domain ∷ domains) (name ∷ names) =
      (solver_for_domain cert i c.default_solver ≡ some name) × AreChosen cert (i + 1) domains names

  -- the name has a solver, the configured one
  abbrev pub HasConfigured : Dict Instance → Text → Type 0
  HasConfigured solvers name =
      (solver : Instance) × (get name solvers ≡ some solver) × IsConfigured name solver

  abbrev AllConfigured : Dict Instance → Type 0
  AllConfigured solvers =
      (name : Text) (solver : Instance) → get name solvers ≡ some solver → IsConfigured name solver

  AllConfigured-insert :
      (key : Text) (made : Instance) (solvers : Dict Instance)
      → IsConfigured key made
      → AllConfigured solvers
      → AllConfigured (insert key made solvers)
  AllConfigured-insert key made solvers new old name solver e =
      let at = get-insert key name made solvers in
      elim (Bool-cases (same key name)) [
        | inl b ↦
            subst (λ n. IsConfigured n solver) ((same_iff key name).0 b)
              (subst (IsConfigured key) (eq_of_some _ _ (sym (if_of_true _ _ b) ∙ sym at ∙ e)) new)
        | inr b ↦ old name solver (sym (if_of_false _ _ b) ∙ sym at ∙ e)
      ]

module _ (is_ip : Text → Bool) (c : Config) where
  abbrev AllDefined : List Text → Type 0
  AllDefined = All (λ name. IsDefined name c.solver)

  names_from-valid :
      (cert : CertificateConfig) (i : ℕ) (domains : List Text)
      → AllSolved is_ip c cert i domains
      → (names : List Text) × (names_from c cert i domains ≡ ok names)
        × AreChosen c cert i domains names
        × AllDefined names
  unfolding names_from
  names_from-valid cert i [] solved = ([], refl, tt, tt)
  names_from-valid cert i (domain ∷ domains) (solved, rest) =
      let (names, q, chosen, defined) = names_from-valid cert (i + 1) domains rest in
      (
        solved.name ∷ names,
        rw (solved.chosen, q) refl,
        (solved.chosen, chosen),
        ((solved.solver, solved.defined), defined),
      )

  http01_from-valid :
      (name : Text) (listen : Option (OneOrMany SocketAddr)) (webroot : Option FilePath)
      → IsSolverValid c (http01 listen webroot)
      → (made : AnySolver) × (http01_from name listen webroot ≡ ok made)
        × Implements c (http01 listen webroot) made
  unfolding http01_from
  http01_from-valid name listen (some w) valid = (webroot_solver w, refl, refl)
  http01_from-valid name (some addrs) none valid = (standalone_solver (to_vec addrs), refl, refl)
  http01_from-valid name none none (inl (l, w)) = absurd (l refl)
  http01_from-valid name none none (inr (l, w)) = absurd (w refl)

  new_solver-valid :
      (name : Text) (solver : SolverConfig)
      → IsSolverValid c solver
      → (made : AnySolver) × (new_solver c name solver ≡ ok made) × Implements c solver made
  unfolding new_solver dns_client
  new_solver-valid name (dns01 dns delay) (client, q) =
      (dns01_solver (record { dns_config = client; delay = delay }), rw q refl, (q, refl))
  new_solver-valid name (http01 listen webroot) valid = http01_from-valid name listen webroot valid
  new_solver-valid name (tls_alpn01 listen) valid = (tls_alpn_solver (to_vec listen), refl, refl)

  build_from-valid :
      (names : List Text) (solvers : Dict Instance)
      → All (λ ((name, solver) : Text × SolverConfig). IsSolverValid c solver) c.solver
      → AllDefined names
      → AllConfigured c solvers
      → (built : Dict Instance) × (build_from c names solvers ≡ ok built) × AllConfigured c built
  unfolding build_from solver_config
  build_from-valid [] solvers valid defined before = (solvers, refl, before)
  build_from-valid (name ∷ names) solvers valid ((solver, q), defined) before =
      let (made, m, fits) =
        new_solver-valid name solver (All-In _ c.solver valid (In-of_get name c.solver q)) in
      elim (Bool-cases (contains_key name solvers)) [
        | inl e ↦
            let (built, b, k) = build_from-valid names solvers valid defined before in
            (built, if_of_true _ _ e ∙ b, k)
        | inr e ↦
            let (built, b, k) =
              build_from-valid names (insert name (made, new_memory) solvers) valid defined (
                AllConfigured-insert c name (made, new_memory) solvers (solver, q, fits, refl)
                  before) in
            (built, if_of_false _ _ e ∙ rw (q, m) b, k)
      ]

  found :
      (solvers : Dict Instance) (name : Text) (o : Option Instance)
      → AllConfigured c solvers
      → get name solvers ≡ o
      → is_some o ≡ true
      → HasConfigured c solvers name
  found solvers name none k q e = absurd cc
  found solvers name (some solver) k q e = (solver, q, k name solver q)

  -- For each certificate of a valid configuration the solvers are built: the names are those chosen for
  -- its domains, one for each, and under each name there is the solver that its configuration
  -- describes, with its client and delay, directory or addresses, and nothing in memory.
  pub build_solvers-valid :
      IsValid is_ip c
      → (cert : CertificateConfig) → In cert c.certificates
      → (names : List Text) × (solvers : Dict Instance) × (solver_names c cert ≡ ok names)
        × (build_solvers c names ≡ ok solvers)
        × AreChosen c cert 0 cert.domains names
        × All (HasConfigured c solvers) names
  unfolding solver_names build_solvers get
  build_solvers-valid valid cert m =
      let solved = (All-In _ c.certificates valid.certificates m).1.solved in
      let (names, q, chosen, defined) = names_from-valid cert 0 cert.domains solved in
      let (solvers, b, k) =
        build_from-valid names [] valid.solvers defined (λ name solver e. absurd cc) in
      (
        names,
        solvers,
        q,
        b,
        chosen,
        All-imp (Has solvers) (HasConfigured c solvers) names
            (λ name has. found solvers name (get name solvers) k refl has)
            (build_solvers-All c names solvers b),
      )
