-- ===== src/Renew/Build.antt =====
-- src/renew.rs: the solvers of a certificate's domains, and their challenge types.
use certforge.Base.{
  Text, Dict, insert, contains_key, ℕ, ◌+◌, Option, none, some, List, [], ◌∷◌, if◌then◌else◌,
}
use certforge.Error.{config, Result, ok, err, ◌>>=◌}
use certforge.Config.{
  FilePath, SocketAddr, OneOrMany, to_vec, SolverConfig, CertificateConfig, Config, ok_or,
  dns_client, solver_config, solver_for_domain,
}
use certforge.World.{ChallengeType}
use certforge.Solver.Server.{Memory, new_memory}
use certforge.Solver.Any.{
  AnySolver, dns01_solver, webroot_solver, standalone_solver, tls_alpn_solver,
}

-- a solver with what it has in memory
abbrev pub Instance : Type 0
Instance = AnySolver × Memory

-- a directory goes before addresses
unfoldable pub http01_from :
    Text → Option (OneOrMany SocketAddr) → Option FilePath → Result AnySolver
http01_from name listen (some webroot) = ok (webroot_solver webroot)
http01_from name (some addrs) none = ok (standalone_solver (to_vec addrs))
http01_from name none none =
    err (config "solver '{name}': HTTP-01 requires either listen or webroot" (name ∷ []))

unfoldable pub new_solver : Config → Text → SolverConfig → Result AnySolver
new_solver c name (SolverConfig.dns01 dns delay) = do
  dns_config ← dns_client c dns
  ok (dns01_solver (record { dns_config = dns_config; delay = delay }))
new_solver c name (SolverConfig.http01 listen webroot) = http01_from name listen webroot
new_solver c name (SolverConfig.tls_alpn01 listen) = ok (tls_alpn_solver (to_vec listen))

unfoldable pub build_from : Config → List Text → Dict Instance → Result (Dict Instance)
build_from c [] solvers = ok solvers
build_from c (name ∷ names) solvers =
    let known = build_from c names solvers in
    let built = solver_config c name >>= λ solver. new_solver c name solver >>= λ made.
    build_from c names (insert name (made, new_memory) solvers) in
    if contains_key name solvers then known else built

unfoldable pub build_solvers : Config → List Text → Result (Dict Instance)
build_solvers c names = build_from c names []

unfoldable pub challenge_type_of : SolverConfig → ChallengeType
challenge_type_of (SolverConfig.dns01 _ _) = ChallengeType.dns01
challenge_type_of (SolverConfig.http01 _ _) = ChallengeType.http01
challenge_type_of (SolverConfig.tls_alpn01 _) = ChallengeType.tls_alpn01

unfoldable pub solver_challenge_type : Config → Text → Result ChallengeType
solver_challenge_type c solver_name = do
  solver ← solver_config c solver_name
  ok (challenge_type_of solver)

-- the solver of each domain, from index `i` on
unfoldable pub names_from : Config → CertificateConfig → ℕ → List Text → Result (List Text)
names_from c cert i [] = ok []
names_from c cert i (domain ∷ domains) = do
  name ← ok_or (solver_for_domain cert i c.default_solver) (
      config "certificate {}: no solver configured for domain '{domain}'" (cert.name ∷ domain ∷ []))
  names ← names_from c cert (i + 1) domains
  ok (name ∷ names)

unfoldable pub solver_names : Config → CertificateConfig → Result (List Text)
solver_names c cert = names_from c cert 0 cert.domains

-- domains and solver names, side by side
unfoldable pub desired_types : Config → List Text → List Text → Result (List (Text × ChallengeType))
desired_types c [] names = ok []
desired_types c (domain ∷ domains) [] = ok []
desired_types c (domain ∷ domains) (name ∷ names) = do
  kind ← solver_challenge_type c name
  types ← desired_types c domains names
  ok ((domain, kind) ∷ types)
