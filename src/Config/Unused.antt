-- ===== src/Config/Unused.antt =====
-- src/config.rs, the end of `Config::validate`: the definitions that nothing refers to. The code logs
-- a warning for each; here the names are given.
use certforge.Base.{Text, same, any, map, not, keep, Option, none, some, List, [], ◌∷◌, ◌++◌}
use certforge.Config.{
  SolverConfig, dns01, http01, tls_alpn01, DaneConfig, NamedHookConfig, CertificateConfig, Config,
}

abbrev pub of_option {ℓ} : {A : Type ℓ} → Option A → List A
of_option none = []
of_option (some a) = a ∷ []

abbrev pub of_options {ℓ} : {A : Type ℓ} → Option (List A) → List A
of_options none = []
of_options (some xs) = xs

-- the DNS clients that a solver refers to
unfoldable pub solver_dns : List (Text × SolverConfig) → List Text
solver_dns [] = []
solver_dns ((_, dns01 dns _) ∷ solvers) = dns ∷ solver_dns solvers
solver_dns ((_, http01 _ _) ∷ solvers) = solver_dns solvers
solver_dns ((_, tls_alpn01 _) ∷ solvers) = solver_dns solvers

unfoldable pub certificate_dns : List CertificateConfig → List Text
certificate_dns [] = []
certificate_dns (cert ∷ certs) = map (λ (d : DaneConfig). d.dns) cert.dane ++ certificate_dns certs

unfoldable pub certificate_solvers : List CertificateConfig → List Text
certificate_solvers [] = []
certificate_solvers (cert ∷ certs) =
    (of_option cert.solver ++ of_options cert.solvers) ++ certificate_solvers certs

unfoldable pub certificate_hooks : List CertificateConfig → List Text
certificate_hooks [] = []
certificate_hooks (cert ∷ certs) = cert.hooks ++ certificate_hooks certs

unfoldable pub referenced_dns : Config → List Text
referenced_dns c = solver_dns c.solver ++ certificate_dns c.certificates

unfoldable pub referenced_solvers : Config → List Text
referenced_solvers c = certificate_solvers c.certificates ++ of_option c.default_solver

-- the names that are not among those referenced
unfoldable pub unreferenced : List Text → List Text → List Text
unreferenced referenced names = keep (λ name. not (any (same name) referenced)) names

unfoldable pub unused_dns : Config → List Text
unused_dns c = unreferenced (referenced_dns c) (map (λ p. p.0) c.dns)

unfoldable pub unused_solvers : Config → List Text
unused_solvers c = unreferenced (referenced_solvers c) (map (λ p. p.0) c.solver)

unfoldable pub unused_hooks : Config → List Text
unused_hooks c =
    unreferenced (certificate_hooks c.certificates) (map (λ (h : NamedHookConfig). h.name) c.hook)
