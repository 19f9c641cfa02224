-- ===== src/Solver/Any.antt =====
-- src/solver/mod.rs: the trait `Solver`, as the sum of its implementations. An operation takes what
-- the solver has in memory and gives it back, on an error too.
use certforge.Base.{ℕ, Option, none, List, []}
use certforge.Error.{config, Result, ok, err, panic}
use certforge.Config.{FilePath, SocketAddr}
use certforge.Crates.{Crates}
use certforge.Acme.{ChallengeInfo}
use certforge.Exec.{pure, capture, ◌>>=◌, ◌>>◌}
use certforge.World.{Io, Env}
use certforge.Solver.Dns01.{Dns01Solver}
use certforge.Solver.Dns01
use certforge.Solver.Http01.{present_token, cleanup_token, present_file, cleanup_file}
use certforge.Solver.Server.{Memory, ensure_server_running}
use certforge.Solver.TlsAlpn01.{serve, generate_acme_cert, present_cert, cleanup_cert}

pub data AnySolver : Type 0 where
  dns01_solver : Dns01Solver → AnySolver
  webroot_solver : FilePath → AnySolver
  standalone_solver : (listen : List SocketAddr) → AnySolver
  tls_alpn_solver : (listen : List SocketAddr) → AnySolver

abbrev pub Step : Type 0
Step = Memory × Result (Unit {0})

-- a solver without memory
unfoldable pub stateless : Memory → Io (Unit {0}) → Io Step
stateless m operation = do result ← capture operation; pure (m, result)

abbrev pub after_cert : ChallengeInfo → Memory → Result (List ℕ) → Step
after_cert challenge m (ok certified_key) =
    (record m { certs = present_cert challenge certified_key m.certs }, ok tt)
after_cert challenge m (err e) = (m, err e)
after_cert challenge m panic = (m, panic)

module _ (crates : Crates) (env : Env) where
  unfoldable pub present : AnySolver → ChallengeInfo → Memory → Io Step
  present (dns01_solver solver) challenge m =
      stateless m (Dns01.present crates env solver challenge)
  present (webroot_solver webroot) challenge m = stateless m (present_file env webroot challenge)
  present (standalone_solver listen) challenge m = do
    running ←
        ensure_server_running env (config "HTTP-01 solver: failed to bind any address: {}" [])
          listen m.running
    pure (record m { running = running; tokens = present_token challenge m.tokens }, ok tt)
  present (tls_alpn_solver listen) challenge m = do
    running ←
        ensure_server_running env (config "TLS-ALPN-01 solver: failed to bind any address: {}" [])
          listen m.running
    serve crates env running m.certs
    certified_key ←
        capture (generate_acme_cert crates env challenge.identifier challenge.key_authorization)
    pure (after_cert challenge (record m { running = running }) certified_key)

  unfoldable pub cleanup : AnySolver → ChallengeInfo → Memory → Io Step
  cleanup (dns01_solver solver) challenge m =
      stateless m (Dns01.cleanup crates env solver challenge)
  cleanup (webroot_solver webroot) challenge m = stateless m (cleanup_file env webroot challenge)
  cleanup (standalone_solver listen) challenge m =
      pure (record m { tokens = cleanup_token challenge m.tokens }, ok tt)
  cleanup (tls_alpn_solver listen) challenge m = do
    serve crates env m.running m.certs
    pure (record m { certs = cleanup_cert challenge m.certs }, ok tt)

  -- the server of a solver, while the order is completed; the HTTP-01 servers answer by the total
  -- function `handle_request`, so that they leave the run alone
  unfoldable pub serve_solver : AnySolver → Memory → Io (Unit {0})
  serve_solver (dns01_solver solver) m = pure tt
  serve_solver (webroot_solver webroot) m = pure tt
  serve_solver (standalone_solver listen) m = pure tt
  serve_solver (tls_alpn_solver listen) m = serve crates env m.running m.certs

unfoldable pub propagation_delay : AnySolver → Option ℕ
propagation_delay (dns01_solver solver) = Dns01.propagation_delay solver
propagation_delay (webroot_solver _) = none
propagation_delay (standalone_solver _) = none
propagation_delay (tls_alpn_solver _) = none
