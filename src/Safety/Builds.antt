-- ===== src/Safety/Builds.antt =====
-- The solvers that are built for a certificate (src/renew.rs), and where that may panic.
use certforge.Base.{
  Text, Dict, get, In-of_get, All-In, subst, insert, contains_key, same_refl, Bool-cases,
  if_of_true, if_of_false, ◌∙◌, ℕ, ◌+◌, All, Bool, true, false, inl, inr, Option, none, some, List,
  [], ◌∷◌, ◌≡◌, sym, if◌then◌else◌,
}
use certforge.Error.{Error, eq_of_ok, >>=-eq-ok, Result, ok}
use certforge.Config.{
  FilePath, SocketAddr, OneOrMany, SolverConfig, dns01, http01, tls_alpn01, CertificateConfig,
  Config, ok_or, dns_client, solver_config, solver_for_domain,
}
use certforge.Exec.Panics.{IsSafe, IsSafe-ok, IsSafe-err, IsSafe-ok_or, IsSafe-bind}
use certforge.Solver.Server.{new_memory}
use certforge.Renew.Build.{
  Instance, http01_from, new_solver, build_from, build_solvers, solver_challenge_type, names_from,
  solver_names, desired_types,
}
use certforge.Safety.Dns.{dns_client-IsSafe}
use certforge.World.{Env}
use certforge.Solver.Any.{AnySolver}
use certforge.Safety.Solvers.{NoHandshake, IsQuiet}
use certforge.Safety.Lookups.{AllQuiet, AllQuiet-insert, Has, Has-insert, Has-insert-same}

-- a TLS-ALPN-01 solver is configured only where no handshake names a server
abbrev pub IsConfigQuiet : Env → Text × SolverConfig → Type 0
IsConfigQuiet env (name, dns01 dns delay) = Unit
IsConfigQuiet env (name, http01 listen webroot) = Unit
IsConfigQuiet env (name, tls_alpn01 listen) = NoHandshake env

http01_from-IsQuiet :
    (env : Env) (name : Text) (listen : Option (OneOrMany SocketAddr)) (webroot : Option FilePath)
    (made : AnySolver)
    → http01_from name listen webroot ≡ ok made
    → IsQuiet env made
unfolding http01_from
http01_from-IsQuiet env name listen (some w) made q = subst (IsQuiet env) (eq_of_ok _ _ q) tt
http01_from-IsQuiet env name (some addrs) none made q = subst (IsQuiet env) (eq_of_ok _ _ q) tt
http01_from-IsQuiet env name none none made q = absurd cc

http01_from-IsSafe :
    (name : Text) (listen : Option (OneOrMany SocketAddr)) (webroot : Option FilePath)
    → IsSafe (http01_from name listen webroot)
unfolding http01_from
http01_from-IsSafe name listen (some w) = IsSafe-ok _
http01_from-IsSafe name (some addrs) none = IsSafe-ok _
http01_from-IsSafe name none none = IsSafe-err _

-- the solvers named, each of them quiet
abbrev pub AreReady : Env → List Text → Dict Instance → Type 0
AreReady env names solvers = All (Has solvers) names × AllQuiet env solvers

module _ (c : Config) where
  new_solver-IsSafe : (name : Text) (solver : SolverConfig) → IsSafe (new_solver c name solver)
  unfolding new_solver
  new_solver-IsSafe name (dns01 dns delay) =
      IsSafe-bind (dns_client c dns) _ (dns_client-IsSafe c dns) λ d q. IsSafe-ok _
  new_solver-IsSafe name (http01 listen webroot) = http01_from-IsSafe name listen webroot
  new_solver-IsSafe name (tls_alpn01 listen) = IsSafe-ok _

  solver_config-IsSafe : (name : Text) → IsSafe (solver_config c name)
  unfolding solver_config
  solver_config-IsSafe name = IsSafe-ok_or _ _

  IsSafe-if :
      {A : Type 0} (b : Bool) (p q : Result A) → IsSafe p → IsSafe q → IsSafe (if b then p else q)
  IsSafe-if true p q sp sq = sp
  IsSafe-if false p q sp sq = sq

  new_solver-IsQuiet :
      (env : Env) (name : Text) (solver : SolverConfig) (made : AnySolver)
      → new_solver c name solver ≡ ok made
      → IsConfigQuiet env (name, solver)
      → IsQuiet env made
  unfolding new_solver
  new_solver-IsQuiet env name (dns01 dns delay) made q quiet =
      let (client, _, a) = >>=-eq-ok (dns_client c dns) _ q in
      subst (IsQuiet env) (eq_of_ok _ _ a) tt
  new_solver-IsQuiet env name (http01 listen webroot) made q quiet =
      http01_from-IsQuiet env name listen webroot made q
  new_solver-IsQuiet env name (tls_alpn01 listen) made q quiet =
      subst (IsQuiet env) (eq_of_ok _ _ q) quiet

  solver_config-get :
      (name : Text) (solver : SolverConfig)
      → solver_config c name ≡ ok solver
      → get name c.solver ≡ some solver
  unfolding solver_config
  solver_config-get name solver q = found (get name c.solver) _ q
    where
      found : (o : Option SolverConfig) (e : Error) → ok_or o e ≡ ok solver → o ≡ some solver
      found none e q = absurd cc
      found (some s) e q = cc

  build_from-IsSafe :
      (names : List Text) (solvers : Dict Instance) → IsSafe (build_from c names solvers)
  unfolding build_from
  build_from-IsSafe [] solvers = IsSafe-ok solvers
  build_from-IsSafe (name ∷ names) solvers = IsSafe-if _ _ _ (build_from-IsSafe names solvers) (
      IsSafe-bind (solver_config c name) _ (solver_config-IsSafe name) λ solver q.
        IsSafe-bind (new_solver c name solver) _ (new_solver-IsSafe name solver)
          λ made r. build_from-IsSafe names _)

  -- the solvers that were there, and those named
  record Built (names : List Text) (before after : Dict Instance) : Type 0 where
    pub kept : (k : Text) → Has before k → Has after k
    pub all : All (Has after) names

  build_from-Built :
      (names : List Text) (solvers after : Dict Instance)
      → build_from c names solvers ≡ ok after
      → Built names solvers after
  unfolding build_from
  build_from-Built [] solvers after q = record {
    kept = λ k h. rw (sym (eq_of_ok _ _ q)) h;
    all = tt;
  }
  build_from-Built (name ∷ names) solvers after q = elim (Bool-cases (contains_key name solvers)) [
    | inl e ↦
        let rest = build_from-Built names solvers after (sym (if_of_true _ _ e) ∙ q) in
        record { kept = rest.kept; all = (rest.kept name e, rest.all) }
    | inr e ↦
        let (solver, _, a) = >>=-eq-ok (solver_config c name) _ (sym (if_of_false _ _ e) ∙ q) in
        let (made, _, b) = >>=-eq-ok (new_solver c name solver) _ a in
        let rest = build_from-Built names (insert name (made, new_memory) solvers) after b in
        record {
          kept = λ k h. rest.kept k (Has-insert name (made, new_memory) solvers k h);
          all = (
            rest.kept name (Has-insert-same name (made, new_memory) solvers (same_refl name)),
            rest.all,
          );
        }
  ]

  build_from-AllQuiet :
      (env : Env) (names : List Text) (solvers after : Dict Instance)
      → All (IsConfigQuiet env) c.solver
      → AllQuiet env solvers
      → build_from c names solvers ≡ ok after
      → AllQuiet env after
  unfolding build_from
  build_from-AllQuiet env [] solvers after quiet before q =
      subst (AllQuiet env) (eq_of_ok _ _ q) before
  build_from-AllQuiet env (name ∷ names) solvers after quiet before q =
      elim (Bool-cases (contains_key name solvers)) [
        | inl e ↦
            build_from-AllQuiet env names solvers after quiet before (sym (if_of_true _ _ e) ∙ q)
        | inr e ↦
            let (solver, s, a) = >>=-eq-ok (solver_config c name) _ (sym (if_of_false _ _ e) ∙ q) in
            let (made, m, b) = >>=-eq-ok (new_solver c name solver) _ a in
            let known = In-of_get name c.solver (solver_config-get name solver s) in
            let new = new_solver-IsQuiet env name solver made m (All-In _ c.solver quiet known) in
            build_from-AllQuiet env names (insert name (made, new_memory) solvers) after quiet
              (AllQuiet-insert env name (made, new_memory) solvers new before) b
      ]

  pub build_solvers-IsSafe : (names : List Text) → IsSafe (build_solvers c names)
  unfolding build_solvers
  build_solvers-IsSafe names = build_from-IsSafe names []

  pub build_solvers-All :
      (names : List Text) (solvers : Dict Instance)
      → build_solvers c names ≡ ok solvers
      → All (Has solvers) names
  unfolding build_solvers
  build_solvers-All names solvers q = (build_from-Built names [] solvers q).all

  pub build_solvers-AreReady :
      (env : Env) (names : List Text) (solvers : Dict Instance)
      → All (IsConfigQuiet env) c.solver
      → build_solvers c names ≡ ok solvers
      → AreReady env names solvers
  unfolding build_solvers
  build_solvers-AreReady env names solvers quiet q =
      (build_solvers-All names solvers q, build_from-AllQuiet env names [] solvers quiet tt q)

  names_from-IsSafe :
      (cert : CertificateConfig) (i : ℕ) (domains : List Text)
      → IsSafe (names_from c cert i domains)
  unfolding names_from
  names_from-IsSafe cert i [] = IsSafe-ok []
  names_from-IsSafe cert i (domain ∷ domains) =
      IsSafe-bind (ok_or (solver_for_domain cert i c.default_solver) _) _ (IsSafe-ok_or _ _)
        λ name p.
          IsSafe-bind (names_from c cert (i + 1) domains) _ (names_from-IsSafe cert (i + 1) domains)
            λ names q. IsSafe-ok _

  pub solver_names-IsSafe : (cert : CertificateConfig) → IsSafe (solver_names c cert)
  unfolding solver_names
  solver_names-IsSafe cert = names_from-IsSafe cert 0 cert.domains

  pub desired_types-IsSafe : (domains names : List Text) → IsSafe (desired_types c domains names)
  unfolding desired_types solver_challenge_type
  desired_types-IsSafe [] names = IsSafe-ok []
  desired_types-IsSafe (domain ∷ domains) [] = IsSafe-ok []
  desired_types-IsSafe (domain ∷ domains) (name ∷ names) =
      IsSafe-bind (solver_challenge_type c name) _
        (IsSafe-bind (solver_config c name) _ (solver_config-IsSafe name) λ s p. IsSafe-ok _)
        λ kind q.
          IsSafe-bind (desired_types c domains names) _ (desired_types-IsSafe domains names)
            λ types r. IsSafe-ok _
